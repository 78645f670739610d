-- ===== src/Pager/Disk.antt =====
-- Pages of the file under writes within the file.
use ryu_db.Base.{
  ℕ, zero, suc, [], ◌∷◌, ◌+◌, ◌-◌, ◌*◌, ◌≤◌, ◌<◌, ◌≡◌, ◌≢◌, ◌⊎◌, inl, inr, refl, ap, arith, Bytes,
  length, take,
}
use ryu_db.Base.{slice, write, length-write, slice-write_same, slice-write_ne, replicate}
use ryu_db.Page.{Page}
use ryu_db.Wal.{Io, io_ok, write_error, sync_error}
use ryu_db.Pager.{write_at, written}
use mathlib.Core.List.{append-nil}

≢-cases : (m n : ℕ) → m ≢ n → (m < n) ⊎ (n < m)
≢-cases m n h = ground arith

length-take_shorter : (n : ℕ) (bs : Bytes) → length (take n bs) ≤ length bs
unfolding take
length-take_shorter zero bs = omega arith
length-take_shorter (suc n) [] = omega arith
length-take_shorter (suc n) (b ∷ bs) = omega (arith, length-take_shorter n bs)

-- Does the file hold the page whole?
abbrev pub InFile : Bytes → ℕ → Type 0
InFile file id = id * 4096 + 4096 ≤ length file

abbrev pub disk_page : Bytes → ℕ → Page
disk_page file id = record { bytes = slice file (id * 4096) 4096 }

pub write_at_in :
    (file : Bytes) (off : ℕ) (bs : Bytes)
    → off + length bs ≤ length file
    → write_at file off bs ≡ write file off bs
unfolding write_at replicate
write_at_in file off bs h =
    let none_new : off + length bs - length file ≡ 0 = omega arith in rw (none_new, append-nil) refl

length-written_le : (io : Io) (bs : Bytes) → length (written io bs) ≤ length bs
length-written_le io_ok bs = omega arith
length-written_le sync_error bs = omega arith
length-written_le (write_error n) bs = length-take_shorter n bs

-- A write of a page of the file leaves its length and its other pages, whatever becomes of it.
pub length-write_at :
    (io : Io) (file : Bytes) (id : ℕ) (bs : Bytes)
    → length bs ≡ 4096
    → InFile file id
    → length (write_at file (id * 4096) (written io bs)) ≡ length file
length-write_at io file id bs n h =
    let short = length-written_le io bs in
    rw (write_at_in file (id * 4096) (written io bs) (omega arith)) (length-write file _ _)

pub disk_page-write_at_ne :
    (io : Io) (file : Bytes) (id other : ℕ) (bs : Bytes)
    → length bs ≡ 4096
    → InFile file id
    → other ≢ id
    → disk_page (write_at file (id * 4096) (written io bs)) other ≡ disk_page file other
disk_page-write_at_ne io file id other bs n h ne =
    let short = length-written_le io bs in
    let apart : (other * 4096 + 4096 ≤ id * 4096)
        ⊎ (id * 4096 + length (written io bs) ≤ other * 4096) =
      elim (≢-cases other id ne) [
        | inl below ↦ inl (omega arith)
        | inr above ↦ inr (omega arith)
      ] in
    rw (write_at_in file (id * 4096) (written io bs) (omega arith)) (
      ap (λ (t : Bytes). let p : Page = record { bytes = t } in p)
        (slice-write_ne file (id * 4096) (written io bs) (other * 4096) 4096 apart))

-- A page that was written whole is the page of the file.
pub disk_page-write_at :
    (file : Bytes) (id : ℕ) (p : Page)
    → length p.bytes ≡ 4096
    → InFile file id
    → disk_page (write_at file (id * 4096) p.bytes) id ≡ p
disk_page-write_at file id p n h = rw (write_at_in file (id * 4096) p.bytes (omega arith)) (
    ap (λ (t : Bytes). let p : Page = record { bytes = t } in p)
      (rw n at (slice-write_same file (id * 4096) p.bytes (omega arith))))
