-- ===== src/Buffer.antt =====
-- internal/storage/buffer_manager.go: frames over the page file and the log. The latches are not
-- modelled; a page that is fetched is the page of its frame, which `store_page` changes.
pub mod View
pub mod Evict
pub mod Fetch
pub mod Write
pub mod Unpin
pub mod Flush
pub mod Close
pub mod Bounds
pub mod Visit
pub mod Ready
pub mod Pins
pub mod Use
pub mod Hold
pub mod Extend
use ryu_db.Base.{ℕ, ◌+◌, ◌-◌, Bool, true, false, not, ◌&&◌, List, [], ◌∷◌, Option, none, some}
use ryu_db.Base.{Bytes, length, leb, ◌==◌, if◌then◌else◌, u32}
use ryu_db.Base.{Result, ok, err, panic, not_in_pool, pin_count_zero, all_pinned, io_failed}
use ryu_db.Base.Table.{Table, lookup, insert, remove}
use ryu_db.Base.State.{Op, and_then}
use ryu_db.Page.{Page, new_page, set_lsn}
use ryu_db.Wal.{Wal, Io, io_ok, append, log_op_full_page}
use ryu_db.Pager.{write_page, read_page, allocate_page}

pub record Frame : Type 0 where
  pub page : Page
  pub is_dirty : Bool
  pub pin_count : ℕ
  pub rec_lsn : ℕ

-- What the code leaves to its surroundings: the order in which Go ranges over the page table, and
-- what becomes of the writes to come, which succeed when the list is used up.
pub record World : Type 0 where
  pub range_order : Table Frame → Table Frame
  pub io : List Io

pub record BufferManager : Type 0 where
  pub file : Bytes
  pub page_table : Table Frame
  pub max_size : ℕ
  pub wal : Option Wal
  pub world : World

abbrev pub new_buffer_manager : Bytes → ℕ → Option Wal → World → BufferManager
new_buffer_manager file max_size wal world = record {
  file = file;
  page_table = [];
  max_size = max_size;
  wal = wal;
  world = world;
}

abbrev pub head_io : List Io → Io
head_io [] = io_ok
head_io (io ∷ rest) = io

abbrev pub tail_io : List Io → List Io
tail_io [] = []
tail_io (io ∷ rest) = rest

-- One write takes place.
abbrev pub spend_io : BufferManager → BufferManager
spend_io b = record b { world = record b.world { io = tail_io b.world.io } }

abbrev pub put_frame : ℕ → Frame → BufferManager → BufferManager
put_frame page_id f b = record b { page_table = insert page_id f b.page_table }

-- The pager's WritePage.
unfoldable pub write_back : ℕ → Page → Op BufferManager (Unit {0})
write_back page_id p b =
    let (answer, file) = write_page (head_io b.world.io) page_id p b.file in
    (answer, record (spend_io b) { file = file })

unfoldable pub first_find : Table Frame → Option (ℕ × Frame)
first_find [] = none
first_find ((id, f) ∷ rest) = if f.pin_count == 0 then some (id, f) else first_find rest

abbrev pub drop_frame : ℕ → Op BufferManager (Unit {0})
drop_frame victim_id b = (ok tt, record b { page_table = remove victim_id b.page_table })

abbrev pub evict_victim : Option (ℕ × Frame) → Op BufferManager (Unit {0})
evict_victim none b = (err all_pinned, b)
evict_victim (some (victim_id, f)) b =
    and_then (if f.is_dirty then write_back victim_id f.page b else (ok tt, b))
      λ done. drop_frame victim_id

-- The victim's frame is deleted, so the reset of its fields is not seen.
unfoldable pub evict : Op BufferManager (Unit {0})
unfolding first_find write_back
evict b = evict_victim (first_find (b.world.range_order b.page_table)) b

abbrev pub make_room : Op BufferManager (Unit {0})
make_room b = if leb b.max_size (length b.page_table) then evict b else (ok tt, b)

abbrev pub add_frame : ℕ → Result Page → Op BufferManager Frame
add_frame page_id (ok p) b =
    let f : Frame = record { page = p; is_dirty = false; pin_count = 1; rec_lsn = 0 } in
    (ok f, put_frame page_id f b)
add_frame page_id (err e) b = (err e, b)
add_frame page_id panic b = (panic, b)

abbrev pub pin_frame : Frame → Frame
pin_frame f = record f { pin_count = u32 (f.pin_count + 1) }

abbrev pub get_found : ℕ → ℕ → Option Frame → Op BufferManager Frame
get_found page_id mode (some f) b = (ok (pin_frame f), put_frame page_id (pin_frame f) b)
get_found page_id mode none b =
    and_then (make_room b)
      λ done b'. add_frame page_id (read_page page_id (new_page mode) b'.file) b'

unfoldable pub get_frame : ℕ → ℕ → Op BufferManager Frame
unfolding evict
get_frame page_id mode b = get_found page_id mode (lookup page_id b.page_table) b

unfoldable pub fetch_page_for_read : ℕ → ℕ → Op BufferManager Page
unfolding get_frame
fetch_page_for_read page_id mode b = and_then (get_frame page_id mode b) λ f b'. (ok f.page, b')

-- The log's Append. The LSN is `none` with an error.
unfoldable pub append_log :
    ℕ → ℕ → ℕ → ℕ → Bytes → Bytes → Wal → BufferManager → Option ℕ × BufferManager
append_log txn_id page_id prev_lsn op_type key value w b =
    let (w', lsn) = append (head_io b.world.io) txn_id page_id prev_lsn op_type key value w in
    (lsn, record (spend_io b) { wal = some w' })

abbrev pub logged : ℕ → Frame → Option ℕ × BufferManager → Result Page × BufferManager
logged page_id f (none, b) = (err io_failed, b)
logged page_id f (some lsn, b) =
    let page = set_lsn lsn f.page in
    (ok page, put_frame page_id (record f { page = page; rec_lsn = lsn }) b)

-- A clean page is logged whole before it is written to. The error of that leaves the frame pinned.
abbrev pub back_up : ℕ → Frame → Option Wal → Op BufferManager Page
back_up page_id f none b = (ok f.page, b)
back_up page_id f (some w) b =
    if f.is_dirty
    then (ok f.page, b)
    else logged page_id f (append_log 0 page_id 0 log_op_full_page [] f.page.bytes w b)

unfoldable pub fetch_page_for_write : ℕ → ℕ → Op BufferManager Page
unfolding get_frame append_log
fetch_page_for_write page_id mode b =
    and_then (get_frame page_id mode b) λ f b'. back_up page_id f b'.wal b'

abbrev pub store_found : ℕ → Page → Option Frame → BufferManager → BufferManager
store_found page_id p none b = b
store_found page_id p (some f) b = put_frame page_id (record f { page = p }) b

-- A write through the page that was fetched.
unfoldable pub store_page : ℕ → Page → BufferManager → BufferManager
store_page page_id p b = store_found page_id p (lookup page_id b.page_table) b

abbrev pub unpin_frame : Bool → Frame → Frame
unpin_frame is_dirty f = record f {
  pin_count = f.pin_count - 1;
  is_dirty = if is_dirty then true else f.is_dirty;
}

abbrev pub unpin_found : ℕ → Bool → Option Frame → Op BufferManager (Unit {0})
unpin_found page_id is_dirty none b = (err not_in_pool, b)
unpin_found page_id is_dirty (some f) b =
    if f.pin_count == 0
    then (err pin_count_zero, b)
    else (ok tt, put_frame page_id (unpin_frame is_dirty f) b)

unfoldable pub unpin_page : ℕ → Bool → Op BufferManager (Unit {0})
unpin_page page_id is_dirty b = unpin_found page_id is_dirty (lookup page_id b.page_table) b

abbrev pub clean_frame : Frame → Frame
clean_frame f = record f { is_dirty = false; rec_lsn = 0 }

abbrev pub flush_frame : ℕ → Frame → Op BufferManager (Unit {0})
flush_frame id f b =
    if f.is_dirty
    then and_then (write_back id f.page b) (λ done b'. (ok tt, put_frame id (clean_frame f) b'))
    else (ok tt, b)

unfoldable pub flush_loop : Table Frame → Op BufferManager (Unit {0})
unfolding write_back
flush_loop [] b = (ok tt, b)
flush_loop ((id, f) ∷ rest) b = and_then (flush_frame id f b) λ done. flush_loop rest

unfoldable pub flush_all : Op BufferManager (Unit {0})
unfolding flush_loop
flush_all b = flush_loop (b.world.range_order b.page_table) b

-- Close: `closed` is what becomes of closing the page file.
unfoldable pub close : Result (Unit {0}) → Op BufferManager (Unit {0})
unfolding flush_all
close closed b = and_then (flush_all b) λ done b'. (closed, b')

unfoldable pub dirty_loop : Table Frame → Table ℕ → Table ℕ
dirty_loop [] dpt = dpt
dirty_loop ((id, f) ∷ rest) dpt =
    dirty_loop rest (if f.is_dirty then insert id f.rec_lsn dpt else dpt)

unfoldable pub get_dirty_page_table : BufferManager → Table ℕ
unfolding dirty_loop
get_dirty_page_table b = dirty_loop (b.world.range_order b.page_table) []

-- The pager's AllocatePage.
unfoldable pub allocate_at_end : ℕ → Op BufferManager ℕ
allocate_at_end mode b =
    let (answer, file) = allocate_page (head_io b.world.io) mode b.file in
    (answer, record (spend_io b) { file = file })
