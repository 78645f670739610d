-- ===== src/Tree/Ops.antt =====
-- internal/storage/btree.go: the operations of the Index interface. `fuel` bounds the depth of the
-- tree and the length of an overflow chain.
use ryu_db.Base.{
  ℕ, zero, suc, ◌+◌, Bool, true, false, List, [], ◌∷◌, ◌++◌, Option, none, some, bit_or,
}
use ryu_db.Base.{
  Bytes, length, ltb, ◌==◌, if◌then◌else◌, Error, Result, ok, err, panic, write_conflict, io_failed,
  out_of_fuel,
}
use ryu_db.Base
use ryu_db.Base.State.{Op, and_then, ◌>>=◌}
use ryu_db.Cell.{KvCell, new_kv_cell, key_deleted_flag, key_overflow_flag, is_overflow}
use ryu_db.Page.{Page, get_page_id, set_lsn, page_type_leaf}
use ryu_db.Page.Rebuild.{page_cells}
use ryu_db.Txn.{
  TransactionManager, TxnStatus, commited, rolling_back, rolled_back, set_status, get_last_lsn,
  set_last_lsn,
}
use ryu_db.Txn.Key.{extract_mvcc_key}
use ryu_db.Wal.{
  Wal, LogRecord, read_record, log_op_insert, log_op_delete, log_op_undo_insert, log_op_clr,
  log_op_commit, log_op_abort,
}
use ryu_db.Leaf.Read.{find_latest_loop}
use ryu_db.Leaf.Write.{Written, fits, must_split, conflicted, write_leaf}
use ryu_db.Leaf.Redo.{redo_upsert_on_page}
use ryu_db.Buffer.{BufferManager, append_log, fetch_page_for_write, unpin_page}
use ryu_db.Tree.Pages.{Pages, return, raise, store, unpin, deferring, lsn_or_zero}
use ryu_db.Tree.Overflow.{create_overflow_chain, read_overflow_chain, free_overflow_chain}
use ryu_db.Tree.Descend.{find_leaf_page}
use ryu_db.Tree.Split.{BTree, on_pages, split_leaf_cells}

abbrev pub max_inline_value_size : ℕ
max_inline_value_size = 1024

-- The value of the cell that FindLatest found.
abbrev pub found_latest : ℕ → Option KvCell → Pages Bytes
found_latest fuel none = raise (err Base.key_not_found)
found_latest fuel (some kv) =
    if kv.flag == key_deleted_flag
    then raise (err Base.key_deleted)
    else if is_overflow kv
    then read_overflow_chain fuel kv.value
    else return kv.value

abbrev pub latest_on_leaf : ℕ → Bytes → Option TransactionManager → Page × List ℕ → Pages Bytes
latest_on_leaf fuel mvcc_user_key tx_mgr (leaf, path) =
    deferring
      (do
        best ←
            raise (
              Base.◌>>=◌ (page_cells leaf)
                λ cells. find_latest_loop mvcc_user_key tx_mgr cells none)
        found_latest fuel best)
      (unpin (get_page_id leaf) false)

unfoldable pub find_latest : ℕ → Bytes → Op BTree Bytes
unfolding find_leaf_page read_overflow_chain find_latest_loop
find_latest fuel mvcc_user_key t =
    on_pages
      (do
        leaf ← find_leaf_page fuel t.root_page_id mvcc_user_key false
        latest_on_leaf fuel mvcc_user_key t.tx_mgr leaf)
      t

-- A value that is too long for a leaf moves to a chain.
abbrev pub move_value : Bytes → ℕ → Pages (Bytes × ℕ)
move_value value flag =
    if ltb max_inline_value_size (length value)
    then (do
      metadata ← create_overflow_chain value
      return (metadata, bit_or flag key_overflow_flag))
    else return (value, flag)

abbrev pub free_all : ℕ → List Bytes → Pages (Unit {0})
free_all fuel [] = return tt
free_all fuel (m ∷ ms) = do _ ← free_overflow_chain fuel m; free_all fuel ms

abbrev pub last_lsn_of : Option TransactionManager → ℕ → ℕ
last_lsn_of none txid = 0
last_lsn_of (some m) txid = get_last_lsn m txid

abbrev pub remember_lsn : Option TransactionManager → ℕ → ℕ → Option TransactionManager
remember_lsn none txid lsn = none
remember_lsn (some m) txid lsn = some (set_last_lsn txid lsn m)

abbrev pub op_of : ℕ → ℕ
op_of flag = if flag == key_deleted_flag then log_op_delete else log_op_insert

-- The page was filled again: it is logged, and let go. Its frame is found by the id in the page, as
-- the code finds it where the page is let go.
abbrev pub finish_logged : Page → ℕ → Option ℕ × BufferManager → Op BTree (Unit {0})
finish_logged leaf writer (none, b) t =
    on_pages (do _ ← unpin (get_page_id leaf) true; raise (err io_failed)) (record t { bm = b })
finish_logged leaf writer (some lsn, b) t =
    on_pages
      (do _ ← store (get_page_id leaf) (set_lsn lsn leaf); unpin_page (get_page_id leaf) true)
      (record t { bm = b; tx_mgr = remember_lsn t.tx_mgr writer lsn })

abbrev pub log_write : Page → KvCell → Option Wal → Op BTree (Unit {0})
log_write leaf kv none t = on_pages (unpin_page (get_page_id leaf) true) t
log_write leaf kv (some w) t =
    let writer = (extract_mvcc_key kv.key).1 in
    finish_logged leaf writer
      (append_log writer (get_page_id leaf) (last_lsn_of t.tx_mgr writer) (op_of kv.flag) kv.key
        kv.value w t.bm)
      t

abbrev pub finish_write : Page → List ℕ → KvCell → Written → Op BTree (Unit {0})
finish_write leaf path kv conflicted t =
    on_pages (do _ ← unpin (get_page_id leaf) false; raise (err write_conflict)) t
finish_write leaf path kv (fits q) t =
    and_then (on_pages (store (get_page_id leaf) q) t) λ stored t'. log_write q kv t'.bm.wal t'
finish_write leaf path kv (must_split cells) t =
    split_leaf_cells (get_page_id leaf) leaf path cells t

unfoldable pub upsert_cell : ℕ → Bytes → Bytes → ℕ → Op BTree (Unit {0})
unfolding find_leaf_page create_overflow_chain write_leaf free_overflow_chain append_log
    split_leaf_cells
upsert_cell fuel key value flag t =
    and_then (on_pages (find_leaf_page fuel t.root_page_id key true) t) λ found t1.
      let (leaf, path) = found in
      and_then (on_pages (move_value value flag) t1) λ moved t2.
        let kv = new_kv_cell moved.1 key moved.0 in
        and_then (on_pages (raise (write_leaf t2.tx_mgr kv leaf)) t2) λ done t3.
          and_then (on_pages (free_all fuel done.1) t3) λ freed. finish_write leaf path kv done.0

unfoldable pub insert : ℕ → Bytes → Bytes → Op BTree (Unit {0})
unfolding upsert_cell
insert fuel key value = upsert_cell fuel key value 0

unfoldable pub delete : ℕ → Bytes → Op BTree (Unit {0})
unfolding upsert_cell
delete fuel key = upsert_cell fuel key [] key_deleted_flag

abbrev pub with_status : Option TransactionManager → ℕ → TxnStatus → Option TransactionManager
with_status none txid status = none
with_status (some m) txid status = some (set_status txid status m)

abbrev pub set_status_of : ℕ → TxnStatus → BTree → BTree
set_status_of txid status t = record t { tx_mgr = with_status t.tx_mgr txid status }

-- Commit and Rollback call the manager's methods, which panic on a nil one.
abbrev pub has_manager : Option TransactionManager → Bool
has_manager none = false
has_manager (some m) = true

-- What is done about an error of the log's Append in Commit.
abbrev pub commit_logged : ℕ → Option ℕ × BufferManager → Op BTree (Unit {0})
commit_logged txid (none, b) t = (err io_failed, record t { bm = b })
commit_logged txid (some lsn, b) t = (
  ok tt,
  set_status_of txid commited (record t { bm = b; tx_mgr = remember_lsn t.tx_mgr txid lsn }),
)

abbrev pub commit_with : ℕ → Option Wal → Op BTree (Unit {0})
commit_with txid none t = (ok tt, set_status_of txid commited t)
commit_with txid (some w) t =
    commit_logged txid (append_log txid 0 (last_lsn_of t.tx_mgr txid) log_op_commit [] [] w t.bm) t

unfoldable pub commit : ℕ → Op BTree (Unit {0})
unfolding append_log
commit txid t = if has_manager t.tx_mgr then commit_with txid t.bm.wal t else (panic, t)

-- An Append whose error is not looked at: its LSN, or 0.
abbrev pub append_unchecked :
    ℕ → ℕ → ℕ → ℕ → Bytes → Bytes → Option Wal → BufferManager → ℕ × BufferManager
append_unchecked txid page_id prev_lsn op_type key value none b = (0, b)
append_unchecked txid page_id prev_lsn op_type key value (some w) b =
    let (lsn, b') = append_log txid page_id prev_lsn op_type key value w b in (lsn_or_zero lsn, b')

abbrev pub inverse_op : ℕ → ℕ
inverse_op op = if op == log_op_delete then log_op_insert else log_op_undo_insert

-- The page with the operation of the record undone, and a compensation record in the log.
abbrev pub undo_on_page : ℕ → LogRecord → Page → Pages (Unit {0})
undo_on_page txid rec p b =
    and_then (raise (redo_upsert_on_page rec.key rec.value (inverse_op rec.op_type) p) b) λ q b1.
      let (lsn, b2) =
        append_unchecked txid rec.page_id rec.prev_lsn log_op_clr rec.key rec.value b1.wal b1 in
      and_then (store rec.page_id (set_lsn lsn q) b2) λ stored. unpin rec.page_id true

-- A page that cannot be fetched is passed over.
abbrev pub undo_fetched :
    ℕ → LogRecord → Result Page × BufferManager → Result (Unit {0}) × BufferManager
undo_fetched txid rec (ok p, b) = undo_on_page txid rec p b
undo_fetched txid rec (err e, b) = (ok tt, b)
undo_fetched txid rec (panic, b) = (panic, b)

-- The step of Rollback, and of the undo phase of Recover.
unfoldable pub undo_record : ℕ → LogRecord → Pages (Unit {0})
unfolding fetch_page_for_write redo_upsert_on_page append_log
undo_record txid rec b =
    if rec.op_type == log_op_insert
    then undo_fetched txid rec (fetch_page_for_write rec.page_id page_type_leaf b)
    else if rec.op_type == log_op_delete
    then undo_fetched txid rec (fetch_page_for_write rec.page_id page_type_leaf b)
    else (ok tt, b)

-- ReadRecord of a nil log panics.
abbrev pub read_log : Option Wal → ℕ → Result (LogRecord × ℕ)
read_log none lsn = panic
read_log (some w) lsn = read_record w lsn

unfoldable pub rollback_loop : ℕ → ℕ → ℕ → Pages (Unit {0})
unfolding undo_record read_record
rollback_loop fuel txid zero b = (ok tt, b)
rollback_loop zero txid (suc lsn) b = (err out_of_fuel, b)
rollback_loop (suc fuel) txid (suc lsn) b = and_then (raise (read_log b.wal (suc lsn)) b) λ read b1.
    let (rec, size) = read in
    and_then (undo_record txid rec b1) λ undone. rollback_loop fuel txid rec.prev_lsn

abbrev pub end_rollback : ℕ → Op BTree (Unit {0})
end_rollback txid t =
    let (lsn, b) = append_unchecked txid 0 0 log_op_abort [] [] t.bm.wal t.bm in
    (ok tt, set_status_of txid rolled_back (record t { bm = b }))

-- `fuel` bounds the records of the transaction.
unfoldable pub rollback : ℕ → ℕ → Op BTree (Unit {0})
unfolding rollback_loop append_log
rollback fuel txid t =
    if has_manager t.tx_mgr
    then (and_then
        (on_pages (rollback_loop fuel txid (last_lsn_of t.tx_mgr txid))
          (set_status_of txid rolling_back t))
        λ undone. end_rollback txid)
    else (panic, t)
