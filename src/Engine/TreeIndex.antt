-- ===== src/Engine/TreeIndex.antt =====
-- The tree of internal/storage/btree.go as the index of the coordinator. The transaction manager, which
-- every call passes, is the coordinator's.
use ryu_db.Base.{
  ℕ, ◌≡◌, refl, arith, false, [], Bytes, Option, none, some, Result, ok, err, panic, Error, crashed,
}
use ryu_db.Base.Table.{lookup-insert}
use ryu_db.Base.State.{and_then}
use ryu_db.Buffer.{BufferManager}
use ryu_db.Cell.{key_deleted_flag}
use ryu_db.Txn.{
  TransactionManager, is_running, get_status, set_status, commited, rolling_back, rolled_back,
}
use ryu_db.Wal.{Wal}
use ryu_db.Tree.Split.{BTree}
use ryu_db.Tree.Ops.{
  insert, delete, find_latest, rollback, commit, commit_logged, commit_with, end_rollback,
}
use ryu_db.Tree.Statuses.{manager_or, upsert_cell-SameStatus}
use ryu_db.Engine.{Db, Outcome, Index, IsIndex, Read, read_value, unread}

-- The tree without the transaction manager.
pub record Store : Type 0 where
  pub bm : BufferManager
  pub root_page_id : ℕ

abbrev pub tree_of : Db Store → BTree
tree_of db = record {
  bm = db.index.bm;
  root_page_id = db.index.root_page_id;
  tx_mgr = some db.tx_mgr;
}

abbrev pub db_of : Db Store → BTree → Db Store
db_of db t = record {
  index = record { bm = t.bm; root_page_id = t.root_page_id };
  tx_mgr = manager_or t.tx_mgr db.tx_mgr;
}

abbrev pub error_of : {A : Type 0} → Result A → Option Error
error_of (ok a) = none
error_of (err e) = some e
error_of panic = some crashed

abbrev pub read_of : Result Bytes → Read
read_of (ok v) = read_value v
read_of (err e) = unread e
read_of panic = unread crashed

abbrev pub ended_at : {A : Type 0} → Db Store → Result A × BTree → Outcome Store
ended_at db (r, t) = (db_of db t, error_of r)

abbrev pub read_at : Db Store → Result Bytes × BTree → Db Store × Read
read_at db (r, t) = (db_of db t, read_of r)

-- `fuel` bounds the depth of the tree and the chains, `records` what a rollback goes back.
unfoldable pub tree_index : ℕ → ℕ → Index Store
unfolding insert delete find_latest rollback commit
tree_index fuel records = record {
  insert = λ key value db. ended_at db (insert fuel key value (tree_of db));
  delete = λ key db. ended_at db (delete fuel key (tree_of db));
  find_latest = λ key db. read_at db (find_latest fuel key (tree_of db));
  rollback = λ txid db. ended_at db (rollback records txid (tree_of db));
  commit = λ txid db. ended_at db (commit txid (tree_of db));
}

status_set :
    (txid : ℕ) (m : TransactionManager)
    → (is_running (get_status (set_status txid rolled_back m) txid) ≡ false)
      × (is_running (get_status (set_status txid rolling_back m) txid) ≡ false)
unfolding get_status set_status
status_set txid m = (
  ground (arith, lookup-insert txid txid rolled_back m.txn_table),
  ground (arith, lookup-insert txid txid rolling_back m.txn_table),
)

rollback_ended :
    (txid root : ℕ) (m other : TransactionManager) (r : Result (Unit {0}) × BufferManager)
    → let t : BTree = record {
      bm = r.1;
      root_page_id = root;
      tx_mgr = some (set_status txid rolling_back m);
    } in
      is_running (
        get_status
          (manager_or (and_then (r.0, t) (λ undone. end_rollback txid)).1.tx_mgr other)
          txid)
      ≡ false
rollback_ended txid root m other (ok a, b) = (status_set txid (set_status txid rolling_back m)).0
rollback_ended txid root m other (err e, b) = (status_set txid m).1
rollback_ended txid root m other (panic, b) = (status_set txid m).1

commited_set :
    (txid : ℕ) (m : TransactionManager) → get_status (set_status txid commited m) txid ≡ commited
unfolding get_status set_status
commited_set txid m = ground (arith, lookup-insert txid txid commited m.txn_table)

commit_logged-commited :
    (txid : ℕ) (db : Db Store) (r : Option ℕ × BufferManager)
    → (ended_at db (commit_logged txid r (tree_of db))).1 ≡ none
    → get_status (ended_at db (commit_logged txid r (tree_of db))).0.tx_mgr txid ≡ commited
commit_logged-commited txid db (none, b) h = ground (arith, h)
commit_logged-commited txid db (some lsn, b) h = commited_set txid _

commit_with-commited :
    (txid : ℕ) (db : Db Store) (w : Option Wal)
    → (ended_at db (commit_with txid w (tree_of db))).1 ≡ none
    → get_status (ended_at db (commit_with txid w (tree_of db))).0.tx_mgr txid ≡ commited
commit_with-commited txid db none h = commited_set txid _
commit_with-commited txid db (some w) h = commit_logged-commited txid db _ h

-- Insert, Delete and FindLatest of the tree, whatever becomes of them, leave the status of every
-- transaction alone; behind Rollback, with or without an error, the transaction is not running; and
-- behind a Commit without an error it is committed.
pub tree_index-IsIndex : (fuel records : ℕ) → IsIndex (tree_index fuel records)
unfolding tree_index insert delete find_latest rollback commit
tree_index-IsIndex fuel records = record {
  insert_status =
      λ key value db t. (upsert_cell-SameStatus fuel key value 0 (tree_of db)).same db.tx_mgr t;
  delete_status = λ key db t.
      (upsert_cell-SameStatus fuel key [] key_deleted_flag (tree_of db)).same db.tx_mgr t;
  find_latest_status = λ key db t. refl;
  rollback_status = λ txid db. rollback_ended txid db.index.root_page_id db.tx_mgr db.tx_mgr _;
  commit_status = λ txid db h. commit_with-commited txid db db.index.bm.wal h;
}
