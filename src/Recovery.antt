-- ===== src/Recovery.antt =====
-- internal/storage/recovery.go: the passes of Recover. The log is read only in analysis and redo, so
-- the loops over its records run over the list of the records that they read.
pub mod Analysis
pub mod Redo
pub mod Open
pub mod Dirty
pub mod Restart
use ryu_db.Base.{ℕ, zero, suc, ◌+◌, Bool, true, false, not, List, [], ◌∷◌, Option, none, some}
use ryu_db.Base.{
  Bytes, length, slice, write, ltb, leb, ◌==◌, if◌then◌else◌, Result, ok, err, panic, out_of_fuel,
}
use ryu_db.Base.{◌>>=◌}
use ryu_db.Base.Table.{Table, lookup, insert, remove}
use ryu_db.Base.State.{Op, and_then, ignore}
use ryu_db.Bytes.Binary.{le_value}
use ryu_db.Bytes.Order.{bytes_eq}
use ryu_db.Page.{Page, get_lsn, set_lsn, page_type_leaf}
use ryu_db.Wal.{
  Wal, LogRecord, read_record, wal_magic, log_op_insert, log_op_delete, log_op_full_page,
  log_op_commit, log_op_abort, log_op_clr, log_op_checkpoint,
}
use ryu_db.Wal.Checkpoint.{decode_table}
use ryu_db.Leaf.Redo.{redo_upsert_on_page}
use ryu_db.Buffer.{BufferManager, fetch_page_for_write}
use ryu_db.Tree.Pages.{Pages, return, raise, store, unpin}
use ryu_db.Tree.Ops.{read_log, undo_record, append_unchecked}

-- The checkpoint file, if it can be read.
abbrev pub checkpoint_lsn : Option Bytes → ℕ
checkpoint_lsn none = 0
checkpoint_lsn (some buf) = if length buf == 8 then le_value buf else 0

-- The first record lies behind the magic header, if the file has it.
abbrev pub first_lsn : Bytes → ℕ → ℕ
first_lsn file lsn =
    if lsn == 0 then (if bytes_eq (slice file 0 4) wal_magic then 4 else 0) else lsn

-- What a loop over the log reads: the records, and the LSN at which it ends.
abbrev pub Scanned : Type 0
Scanned = Result (List LogRecord × ℕ)

abbrev pub prepend : LogRecord → Scanned → Scanned
prepend rec (ok (rest, end)) = ok (rec ∷ rest, end)
prepend rec (err e) = err e
prepend rec panic = panic

abbrev pub scan_read : (ℕ → Scanned) → ℕ → Result (LogRecord × ℕ) → Scanned
scan_read scan lsn (ok (rec, size)) = prepend rec (scan (lsn + size))
scan_read scan lsn (err e) = ok ([], lsn)
scan_read scan lsn panic = panic

-- The records from an LSN on until one cannot be read.
unfoldable pub scan_log : Wal → ℕ → ℕ → Scanned
unfolding read_record
scan_log w zero lsn = err out_of_fuel
scan_log w (suc fuel) lsn = scan_read (scan_log w fuel) lsn (read_record w lsn)

-- Dirty pages with their first LSN, and active transactions with their last.
pub record Tables : Type 0 where
  pub dpt : Table ℕ
  pub att : Table ℕ

-- The record dirties its page.
abbrev pub dirties : ℕ → Bool
dirties op =
    if op == log_op_full_page
    then true
    else if op == log_op_insert
    then true
    else if op == log_op_delete
    then true
    else op == log_op_clr

abbrev pub add_dirty : Option ℕ → LogRecord → Table ℕ → Table ℕ
add_dirty none rec dpt = insert rec.page_id rec.lsn dpt
add_dirty (some old) rec dpt = dpt

abbrev pub ends : ℕ → Bool
ends op = if op == log_op_commit then true else op == log_op_abort

abbrev pub analyse_dpt : LogRecord → Table ℕ → Result (Table ℕ)
analyse_dpt rec dpt =
    if rec.op_type == log_op_checkpoint
    then decode_table rec.value dpt
    else ok (if dirties rec.op_type then add_dirty (lookup rec.page_id dpt) rec dpt else dpt)

abbrev pub analyse_att : LogRecord → Table ℕ → Table ℕ
analyse_att rec att =
    if rec.txn_id == 0
    then att
    else if ends rec.op_type
    then remove rec.txn_id att
    else insert rec.txn_id rec.lsn att

unfoldable pub analyse : List LogRecord → Tables → Result Tables
unfolding decode_table
analyse [] t = ok t
analyse (rec ∷ recs) t = do
  dpt ← analyse_dpt rec t.dpt
  analyse recs (record { dpt = dpt; att = analyse_att rec t.att })

unfoldable pub least_lsn : Table ℕ → ℕ → ℕ
least_lsn [] least = least
least_lsn ((id, lsn) ∷ rest) least = least_lsn rest (if ltb lsn least then lsn else least)

abbrev pub min_lsn : Table ℕ → ℕ → ℕ → ℕ
min_lsn [] end checkpoint = checkpoint
min_lsn (e ∷ rest) end checkpoint = least_lsn (e ∷ rest) end

-- Skip rule 3, and what is redone otherwise. The page is with its new LSN, or as it was.
abbrev pub apply_record : LogRecord → Page → Result Page
apply_record rec p =
    if rec.op_type == log_op_full_page
    then ok (record { bytes = write p.bytes 0 rec.value })
    else if rec.op_type == log_op_insert
    then redo_upsert_on_page rec.key rec.value rec.op_type p
    else if rec.op_type == log_op_delete
    then redo_upsert_on_page rec.key rec.value rec.op_type p
    else ok p

abbrev pub is_applied : LogRecord → Page → Bool
is_applied rec p = if leb rec.lsn (get_lsn p) then not (rec.lsn == 0) else false

unfoldable pub redo_page : LogRecord → Page → Result Page
unfolding redo_upsert_on_page
redo_page rec p =
    if is_applied rec p then ok p else (do q ← apply_record rec p; ok (set_lsn rec.lsn q))

-- Skip rules 1 and 2.
abbrev pub is_skipped : Option ℕ → LogRecord → Bool
is_skipped none rec = true
is_skipped (some rec_lsn) rec = ltb rec.lsn rec_lsn

abbrev pub redo_fetched : LogRecord → Pages (Unit {0})
redo_fetched rec b = and_then (fetch_page_for_write rec.page_id page_type_leaf b) λ p b1.
    let redone =
      and_then (raise (redo_page rec p) b1)
        λ q b2. and_then (store rec.page_id q b2) λ stored. unpin rec.page_id true in
    if is_applied rec p then unpin rec.page_id false b1 else redone

unfoldable pub redo_log : Table ℕ → List LogRecord → Pages (Unit {0})
unfolding fetch_page_for_write redo_page
redo_log dpt [] b = (ok tt, b)
redo_log dpt (rec ∷ recs) b =
    and_then (if is_skipped (lookup rec.page_id dpt) rec then (ok tt, b) else redo_fetched rec b)
      λ done. redo_log dpt recs

-- The active transaction with the greatest last LSN, and that LSN.
unfoldable pub latest_txn : Table ℕ → ℕ × ℕ → ℕ × ℕ
latest_txn [] best = best
latest_txn ((txn, lsn) ∷ rest) best = latest_txn rest (if ltb best.1 lsn then (txn, lsn) else best)

abbrev pub undone_txn : ℕ → LogRecord → Table ℕ → BufferManager → Table ℕ × BufferManager
undone_txn txn rec att b =
    if rec.prev_lsn == 0
    then (remove txn att, (append_unchecked txn 0 0 log_op_abort [] [] b.wal b).1)
    else (insert txn rec.prev_lsn att, b)

-- The undo phase; it stops at a record that cannot be read.
abbrev pub undo_read :
    (Table ℕ → Pages (Unit {0})) → ℕ → Table ℕ → Result (LogRecord × ℕ) → Pages (Unit {0})
undo_read go_on txn att (ok (rec, size)) b =
    and_then (undo_record txn rec b)
      λ undone b1. let (att', b2) = undone_txn txn rec att b1 in go_on att' b2
undo_read go_on txn att (err e) b = (ok tt, b)
undo_read go_on txn att panic b = (panic, b)

abbrev pub undo_with : (Table ℕ → Pages (Unit {0})) → Table ℕ → ℕ × ℕ → Pages (Unit {0})
undo_with go_on att (txn, lsn) b =
    if lsn == 0 then (ok tt, b) else undo_read go_on txn att (read_log b.wal lsn) b

unfoldable pub undo_loop : ℕ → Table ℕ → Pages (Unit {0})
unfolding undo_record latest_txn read_record
undo_loop fuel [] b = (ok tt, b)
undo_loop zero (e ∷ att) b = (err out_of_fuel, b)
undo_loop (suc fuel) (e ∷ att) b =
    undo_with (undo_loop fuel) (e ∷ att) (latest_txn (e ∷ att) (0, 0)) b

abbrev pub without_wal : BufferManager → BufferManager
without_wal b = record b { wal = none }

abbrev pub with_wal : Wal → BufferManager → BufferManager
with_wal w b = record b { wal = some w }

-- Analysis and redo, without a log: the active transactions.
unfoldable pub repeat_history : ℕ → ℕ → Wal → Pages (Table ℕ)
unfolding scan_log analyse redo_log least_lsn
repeat_history fuel start w b =
    and_then (raise (scan_log w fuel (first_lsn w.file start)) b) λ read b1.
      let (recs, end) = read in
      and_then (raise (analyse recs (record { dpt = []; att = [] })) b1) λ t b2.
        let from = first_lsn w.file (min_lsn t.dpt end start) in
        and_then (raise (scan_log w fuel from) b2)
          λ again b3. and_then (redo_log t.dpt again.0 b3) λ redone b4. (ok t.att, b4)

-- The log is given back whatever the outcome, and the undo phase writes to it.
abbrev pub restore_wal {ℓ} :
    {A : Type ℓ} → Wal → Result A × BufferManager → Result A × BufferManager
restore_wal w (r, b) = (r, with_wal w b)

unfoldable pub recover_with : ℕ → Option Bytes → Wal → Pages (Unit {0})
unfolding repeat_history undo_loop
recover_with fuel checkpoint w b =
    and_then (restore_wal w (repeat_history fuel (checkpoint_lsn checkpoint) w (without_wal b)))
      λ att. undo_loop fuel att

abbrev pub recover_logged : ℕ → Option Bytes → Option Wal → Pages (Unit {0})
recover_logged fuel checkpoint none b = (ok tt, b)
recover_logged fuel checkpoint (some w) b = recover_with fuel checkpoint w b

unfoldable pub recover : ℕ → Option Bytes → Pages (Unit {0})
unfolding recover_with
recover fuel checkpoint b = recover_logged fuel checkpoint b.wal b
