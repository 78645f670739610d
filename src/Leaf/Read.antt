-- ===== src/Leaf/Read.antt =====
-- internal/storage/btree.go: `isVersionVisible`, and the scans of `FindLatest` and `Find`.
use ryu_db.Base.{
  ℕ, Bool, true, false, List, [], ◌∷◌, Option, none, some, Bytes, ltb, ◌==◌, if◌then◌else◌,
}
use ryu_db.Base.{Result, ok, err, ◌>>=◌, key_not_found, key_deleted}
use ryu_db.Bytes.Order.{bytes_eq, bytes_lt}
use ryu_db.Cell.{KvCell, deserialize_kv_cell, is_deleted, is_overflow, key_deleted_flag}
use ryu_db.Page.{Page}
use ryu_db.Page.Rebuild.{page_cells}
use ryu_db.Txn.{TransactionManager, get_status, is_commited}
use ryu_db.Txn.Key.{extract_mvcc_key}

-- `txMgr == nil || txMgr.GetStatus(tx) == TXN_COMMITED`.
abbrev pub sees_commited : Option TransactionManager → ℕ → Bool
sees_commited none tx = true
sees_commited (some m) tx = is_commited (get_status m tx)

unfoldable pub is_version_visible : Bytes → Bytes → Option TransactionManager → Bool
is_version_visible kv_key mvcc_user_key tx_mgr =
    let (user_key, reader) = extract_mvcc_key mvcc_user_key in
    let (kv_user_key, version) = extract_mvcc_key kv_key in
    if bytes_eq kv_user_key user_key
    then (if ltb reader version
        then false
        else if version == reader
        then true
        else sees_commited tx_mgr version)
    else false

-- One round of FindLatest's loop.
abbrev pub better : Bytes → Option TransactionManager → KvCell → Option KvCell → Option KvCell
better reader tx_mgr kv best =
    if is_version_visible kv.key reader tx_mgr
    then elim best [ none ↦ some kv | some b ↦ if bytes_lt b.key kv.key then some kv else some b ]
    else best

unfoldable pub find_latest_loop :
    Bytes → Option TransactionManager → List Bytes → Option KvCell → Result (Option KvCell)
find_latest_loop reader tx_mgr [] best = ok best
find_latest_loop reader tx_mgr (c ∷ cs) best = do
  kv ← deserialize_kv_cell c
  find_latest_loop reader tx_mgr cs (better reader tx_mgr kv best)

-- What FindLatest makes of the cell that it found; the chain of an overflow value is read by
-- `read_overflow_chain`.
abbrev pub latest_value : (Bytes → Result Bytes) → Option KvCell → Result Bytes
latest_value read_overflow_chain none = err key_not_found
latest_value read_overflow_chain (some kv) =
    if kv.flag == key_deleted_flag
    then err key_deleted
    else if is_overflow kv
    then read_overflow_chain kv.value
    else ok kv.value

-- FindLatest behind `findLeafPage`.
unfoldable pub find_latest_in :
    (Bytes → Result Bytes) → Bytes → Option TransactionManager → Page → Result Bytes
unfolding find_latest_loop
find_latest_in read_overflow_chain reader tx_mgr leaf = do
  cells ← page_cells leaf
  best ← find_latest_loop reader tx_mgr cells none
  latest_value read_overflow_chain best

abbrev found_value : (Bytes → Result Bytes) → KvCell → Result Bytes
found_value read_overflow_chain kv =
    if is_deleted kv
    then err key_not_found
    else if is_overflow kv
    then read_overflow_chain kv.value
    else ok kv.value

find_loop : (Bytes → Result Bytes) → Bytes → List Bytes → Result Bytes
find_loop read_overflow_chain key [] = err key_not_found
find_loop read_overflow_chain key (c ∷ cs) = do
  kv ← deserialize_kv_cell c
  (let rest = find_loop read_overflow_chain key cs in
      if bytes_eq kv.key key then found_value read_overflow_chain kv else rest)

-- Find behind `findLeafPage`.
unfoldable pub find_in : (Bytes → Result Bytes) → Bytes → Page → Result Bytes
unfolding find_loop
find_in read_overflow_chain key leaf = do
  cells ← page_cells leaf
  find_loop read_overflow_chain key cells
