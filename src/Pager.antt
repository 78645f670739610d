-- ===== src/Pager.antt =====
-- internal/storage/pager.go: the page file, as its content.
pub mod Disk
pub mod Append
use ryu_db.Base.{
  ℕ, ◌+◌, ◌-◌, ◌*◌, ◌/◌, ◌^◌, Bool, true, false, ◌++◌, Bytes, length, take, replicate,
}
use ryu_db.Base.{slice, write, ltb, ◌==◌, if◌then◌else◌, u32}
use ryu_db.Base.{Result, ok, err, panic, end_of_file, bad_page_size, io_failed, page_not_written}
use ryu_db.Page.{Page, page_size, new_page, set_page_id}
use ryu_db.Wal.{Io, io_ok, write_error, sync_error}

-- `file.WriteAt(bs, off)`: a file that ends before `off` is filled up with zeros.
unfoldable pub write_at : Bytes → ℕ → Bytes → Bytes
write_at file off bs = write (file ++ replicate (off + length bs - length file) 0) off bs

-- What of the bytes reaches the file that is written as `io` says; there is no fsync.
abbrev pub written : Io → Bytes → Bytes
written (write_error n) bs = take n bs
written io_ok bs = bs
written sync_error bs = bs

abbrev pub write_answer : Io → Result (Unit {0})
write_answer (write_error n) = err io_failed
write_answer io_ok = ok tt
write_answer sync_error = ok tt

-- The file behind it, and the error.
unfoldable pub write_page : Io → ℕ → Page → Bytes → Result (Unit {0}) × Bytes
write_page io page_id p file =
    if length p.bytes == page_size
    then (write_answer io, write_at file (page_id * page_size) (written io p.bytes))
    else (err bad_page_size, file)

-- ReadPage into the buffer of `p`, which it fills whole.
unfoldable pub read_page : ℕ → Page → Bytes → Result Page
read_page page_id p file =
    if length p.bytes == page_size
    then (if ltb (length file) (page_id * page_size + page_size)
        then err end_of_file
        else ok (record { bytes = slice file (page_id * page_size) page_size }))
    else err bad_page_size

abbrev pub new_id : ℕ → Result (Unit {0}) × Bytes → Result ℕ × Bytes
new_id id (ok done, file) = (ok id, file)
new_id id (err e, file) = (err (page_not_written id), file)
new_id id (panic, file) = (panic, file)

unfoldable pub allocate_page : Io → ℕ → Bytes → Result ℕ × Bytes
unfolding new_page write_page
allocate_page io mode file =
    let new_page_id = u32 (length file / page_size) in
    new_id new_page_id (write_page io new_page_id (set_page_id new_page_id (new_page mode)) file)
