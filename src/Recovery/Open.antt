-- ===== src/Recovery/Open.antt =====
-- internal/storage/btree.go: NewBTree on the contents of its files, Checkpoint and Close.
use ryu_db.Base.{
  ℕ, true, false, Option, none, some, Bytes, length, ◌==◌, if◌then◌else◌, Result, ok, err, panic,
  io_failed,
}
use ryu_db.Base.State.{and_then, ◌>>=◌}
use ryu_db.Bytes.Binary.{le_bytes}
use ryu_db.Page.{
  meta_page_id, page_type_meta, page_type_leaf, get_root_page_id, set_root_page_id,
  set_first_free_page_id,
}
use ryu_db.Wal.{Wal, new_wal}
use ryu_db.Wal.Checkpoint.{write_checkpoint}
use ryu_db.Buffer
use ryu_db.Buffer.{
  BufferManager, World, new_buffer_manager, head_io, spend_io, fetch_page_for_read,
  fetch_page_for_write, allocate_at_end, get_dirty_page_table,
}
use ryu_db.Tree.Pages.{Pages, return, store, unpin, log_full_page}
use ryu_db.Tree.Split.{BTree}
use ryu_db.Recovery.{recover}

-- A new file gets its meta page and an empty leaf as its root.
unfoldable pub set_up : Pages ℕ
unfolding allocate_at_end fetch_page_for_write log_full_page
set_up = do
  meta_id ← allocate_at_end page_type_meta
  root_id ← allocate_at_end page_type_leaf
  meta ← fetch_page_for_write meta_id page_type_meta
  logged ← log_full_page meta_id (set_first_free_page_id 0 (set_root_page_id root_id meta))
  _ ← store meta_id logged
  _ ← unpin meta_id true
  return root_id

unfoldable pub read_root : Pages ℕ
unfolding fetch_page_for_read
read_root = do
  meta ← fetch_page_for_read meta_page_id page_type_meta
  _ ← unpin meta_page_id false
  return (get_root_page_id meta)

abbrev pub opened : Result ℕ × BufferManager → Result BTree
opened (ok root, b) = ok (record { bm = b; root_page_id = root; tx_mgr = none })
opened (err e, b) = err e
opened (panic, b) = panic

-- The header of an empty log is a write.
abbrev pub open_log : Bytes → BufferManager → BufferManager
open_log log b =
    let opened_log = some (new_wal (head_io b.world.io) log) in
    if length log == 0
    then record (spend_io b) { wal = opened_log }
    else record b { wal = opened_log }

-- The contents are those of the checkpoint file, if it is there, the page file and the log file.
unfoldable pub new_btree : ℕ → Option Bytes → Bytes → Bytes → World → Result BTree
unfolding recover set_up read_root new_wal
new_btree fuel checkpoint file log world =
    let b = open_log log (new_buffer_manager file 100 none world) in
    opened (
      and_then (recover fuel checkpoint b)
        λ done b1. if length b1.file == 0 then set_up b1 else read_root b1)

abbrev pub checkpointed : Wal × Option ℕ → BufferManager → Result (Option Bytes) × BufferManager
checkpointed (w, none) b = (err io_failed, record b { wal = some w })
checkpointed (w, some lsn) b = (ok (some (le_bytes 8 lsn)), record b { wal = some w })

abbrev pub checkpoint_with : Option Wal → Pages (Option Bytes)
checkpoint_with none b = (ok none, b)
checkpoint_with (some w) b =
    checkpointed (write_checkpoint (head_io b.world.io) (get_dirty_page_table b) w) (spend_io b)

-- What is written to the checkpoint file, if there is a log.
unfoldable pub checkpoint : Pages (Option Bytes)
unfolding write_checkpoint get_dirty_page_table
checkpoint b = checkpoint_with b.wal b

-- Close: what becomes of closing the log is not looked at, `closed` is that of the page file.
unfoldable pub close : Result (Unit {0}) → Pages (Unit {0})
unfolding Buffer.close
close closed b = Buffer.close closed b
