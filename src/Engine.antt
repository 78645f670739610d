-- ===== src/Engine.antt =====
-- internal/engine/db.go: `DB`, the coordinator over the storage.Index interface of
-- internal/storage/btree.go. An operation of the index takes the index and the transaction manager
-- and returns them with its error, if there is one.
pub mod TreeIndex
use ryu_db.Base.{Bytes, ℕ, Option, none, some, Error, write_conflict}
use ryu_db.Base.{◌≡◌, Bool, true, false, if◌then◌else◌}
use ryu_db.Txn.{TransactionManager, commited, is_running, get_status}
use ryu_db.Txn.Key.{build_mvcc_key}

-- The index, of any type, and the transaction manager that it is given.
pub record Db (S : Type 0) : Type 0 where
  pub index : S
  pub tx_mgr : TransactionManager

abbrev pub Outcome : Type 0 → Type 0
Outcome S = Db S × Option Error

-- What a read returns.
pub data Read : Type 0 where
  read_value : Bytes → Read
  unread : Error → Read

pub record Index (S : Type 0) : Type 0 where
  pub insert : Bytes → Bytes → Db S → Outcome S
  pub delete : Bytes → Db S → Outcome S
  pub find_latest : Bytes → Db S → Db S × Read
  pub rollback : ℕ → Db S → Outcome S
  pub commit : ℕ → Db S → Outcome S

-- The conflict error is told by the prefix of its text.
abbrev pub is_conflict_error : Option Error → Bool
is_conflict_error (some write_conflict) = true
is_conflict_error _ = false

-- What the sessions rely on: reads and writes leave the statuses alone, a transaction that is rolled
-- back is not running any more, and one that is committed without an error is committed.
pub record IsIndex {S : Type 0} (ix : Index S) : Type 0 where
  pub insert_status :
      (key value : Bytes) (db : Db S) (t : ℕ)
      → get_status (ix.insert key value db).0.tx_mgr t ≡ get_status db.tx_mgr t
  pub delete_status :
      (key : Bytes) (db : Db S) (t : ℕ)
      → get_status (ix.delete key db).0.tx_mgr t ≡ get_status db.tx_mgr t
  pub find_latest_status :
      (key : Bytes) (db : Db S) (t : ℕ)
      → get_status (ix.find_latest key db).0.tx_mgr t ≡ get_status db.tx_mgr t
  pub rollback_status :
      (txid : ℕ) (db : Db S) → is_running (get_status (ix.rollback txid db).0.tx_mgr txid) ≡ false
  pub commit_status :
      (txid : ℕ) (db : Db S)
      → (ix.commit txid db).1 ≡ none
      → get_status (ix.commit txid db).0.tx_mgr txid ≡ commited

module _ {S : Type 0} (ix : Index S) where
  -- A write-write conflict rolls the transaction back; the error of that rollback is dropped.
  abbrev pub abort_on_conflict : ℕ → Outcome S → Outcome S
  abort_on_conflict tx_id (db, e) =
      if is_conflict_error e then ((ix.rollback tx_id db).0, e) else (db, e)

  unfoldable pub set : ℕ → Bytes → Bytes → Db S → Outcome S
  set tx_id key value db = abort_on_conflict tx_id (ix.insert (build_mvcc_key key tx_id) value db)

  unfoldable pub get : ℕ → Bytes → Db S → Db S × Read
  get tx_id key db = ix.find_latest (build_mvcc_key key tx_id) db

  unfoldable pub delete : ℕ → Bytes → Db S → Outcome S
  delete tx_id key db = abort_on_conflict tx_id (ix.delete (build_mvcc_key key tx_id) db)

  unfoldable pub rollback : ℕ → Db S → Outcome S
  rollback tx_id db = ix.rollback tx_id db

  unfoldable pub commit : ℕ → Db S → Outcome S
  commit tx_id db = ix.commit tx_id db
