-- ===== src/Recovery/Restart.antt =====
-- From a checkpoint to the analysis pass of the next start.
use ryu_db.Base.{
  ℕ, ◌^◌, ◌<◌, ◌≡◌, refl, ap, ◌∙◌, Option, none, some, Result, [], ◌∷◌, Bytes, length, ok,
}
use ryu_db.Bytes.Binary.{le_bytes, le_value-le_bytes, length-le_bytes}
use ryu_db.Wal.{Wal, LogRecord, record_size, io_ok, append, read_record, log_op_checkpoint}
use ryu_db.Wal.RoundTrip.{Fits}
use ryu_db.Wal.File.{IsLog, appended, read-append}
use ryu_db.Wal.Checkpoint.{
  encode_table, write_checkpoint, FitsEntries, insert_entries, decode-encode_table,
}
use ryu_db.Buffer.{BufferManager, head_io, spend_io, get_dirty_page_table}
use ryu_db.Base.Table.{lookup}
use ryu_db.Buffer.View.{IsPool}
use ryu_db.Recovery.Dirty.{dirty_from, lookup-read_back}
use ryu_db.Recovery.{checkpoint_lsn, analyse}
use ryu_db.Recovery.Open.{checkpoint, checkpointed, checkpoint_with}

-- The record that a checkpoint writes.
abbrev pub checkpoint_record : BufferManager → Wal → LogRecord
checkpoint_record b w =
    appended 0 0 0 log_op_checkpoint [] (encode_table (get_dirty_page_table b)) w

checkpoint_lsn-le_bytes : (lsn : ℕ) → lsn < 256 ^ 8 → checkpoint_lsn (some (le_bytes 8 lsn)) ≡ lsn
checkpoint_lsn-le_bytes lsn fits = rw (length-le_bytes 8 lsn, le_value-le_bytes 8 lsn fits) refl

checkpointed_lem :
    (r : Wal × Option ℕ) (b : BufferManager) (lsn : ℕ)
    → r.1 ≡ some lsn
    → ((checkpointed r b).0 ≡ ok (some (le_bytes 8 lsn))) × ((checkpointed r b).1.wal ≡ some r.0)
checkpointed_lem (w, none) b lsn e = absurd (cc e)
checkpointed_lem (w, some l) b lsn e =
    (ap (λ n. ok (some (le_bytes 8 n))) (let same : l ≡ lsn = cc e in same), refl)

-- Where the write succeeds, the log's LSN is the length of its file, and the record and the entries
-- of the table fit their fields, Checkpoint writes to the checkpoint file an LSN at which the next
-- start reads the checkpoint record. The analysis of that record makes a dirty page table which has, on
-- a well-formed pool, the dirty pages and no others, each with the LSN that its frame holds, and an
-- active transaction table without an entry, whichever transactions run at the checkpoint.
pub analyse-checkpoint :
    (w : Wal) (b : BufferManager)
    → b.wal ≡ some w
    → head_io b.world.io ≡ io_ok
    → IsLog w
    → IsPool b
    → Fits (checkpoint_record b w)
    → FitsEntries (get_dirty_page_table b)
    → length (get_dirty_page_table b) < 2 ^ 32
    → (c : Bytes) × (w' : Wal) × ((checkpoint b).0 ≡ ok (some c))
      × ((checkpoint b).1.wal ≡ some w')
      × (read_record w' (checkpoint_lsn (some c))
          ≡ ok (checkpoint_record b w, record_size (checkpoint_record b w)))
      × (analyse (checkpoint_record b w ∷ []) (record { dpt = []; att = [] })
          ≡ ok (record { dpt = insert_entries (get_dirty_page_table b) []; att = [] }))
      × ((j : ℕ)
          → lookup j (insert_entries (get_dirty_page_table b) [])
            ≡ dirty_from (lookup j b.page_table) none)
unfolding checkpoint write_checkpoint analyse
analyse-checkpoint w b has_log quiet is_log pool fits entries few =
    let dpt = get_dirty_page_table b in
    let (at_end, still, read_back) =
      read-append 0 0 0 log_op_checkpoint [] (encode_table dpt) w is_log fits in
    let w' = (append io_ok 0 0 0 log_op_checkpoint [] (encode_table dpt) w).0 in
    let steps =
      ap (λ o. checkpoint_with o b) has_log
      ∙ ap (λ io. checkpointed (write_checkpoint io dpt w) (spend_io b)) quiet in
    let done = checkpointed_lem (write_checkpoint io_ok dpt w) (spend_io b) w.current_lsn at_end in
    (
      le_bytes 8 w.current_lsn,
      w',
      ap (λ (r : Result (Option Bytes) × BufferManager). r.0) steps ∙ done.0,
      ap (λ (r : Result (Option Bytes) × BufferManager). r.1.wal) steps ∙ done.1,
      rw (checkpoint_lsn-le_bytes w.current_lsn fits.lsn) read_back,
      rw (decode-encode_table dpt [] entries few) refl,
      lookup-read_back b pool,
    )
