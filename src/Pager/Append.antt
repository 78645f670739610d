-- ===== src/Pager/Append.antt =====
-- AllocatePage writes a page behind the last whole page of the file.
use ryu_db.Base.{
  ℕ, ◌+◌, ◌-◌, ◌*◌, ◌≤◌, ◌<◌, ◌≡◌, sym, ap, ◌∙◌, arith, ◌++◌, Bytes, length, length-append,
  replicate, length-replicate, slice, write, length-write, slice-write_same, slice-write_ne,
  slice-append_left, inl,
}
use ryu_db.Page.{Page}
use ryu_db.Pager.{write_at}
use ryu_db.Pager.Disk.{disk_page}

module _ (file : Bytes) (k : ℕ) (p : Page) (whole : k * 4096 ≤ length file)
    (last : length file < k * 4096 + 4096) (size : length p.bytes ≡ 4096) where
  padded : Bytes
  padded = file ++ replicate (k * 4096 + length p.bytes - length file) 0

  length-padded : length padded ≡ k * 4096 + 4096
  unfolding padded
  length-padded = omega (
    arith,
    length-append {0} file (replicate (k * 4096 + length p.bytes - length file) 0),
    length-replicate {A = ℕ} (k * 4096 + length p.bytes - length file) 0,
    size,
    last,
  )

  pub length-write_at_end : length (write_at file (k * 4096) p.bytes) ≡ k * 4096 + 4096
  unfolding write_at padded
  length-write_at_end = length-write padded (k * 4096) p.bytes ∙ length-padded

  pub disk_page-write_at_end : disk_page (write_at file (k * 4096) p.bytes) k ≡ p
  unfolding write_at padded
  disk_page-write_at_end =
      ap (λ (t : Bytes). let q : Page = record { bytes = t } in q)
        (ap (λ n. slice (write padded (k * 4096) p.bytes) (k * 4096) n) (sym size)
          ∙ slice-write_same padded (k * 4096) p.bytes (omega (arith, length-padded, size)))

  pub disk_page-write_at_end_ne :
      (j : ℕ) → j < k → disk_page (write_at file (k * 4096) p.bytes) j ≡ disk_page file j
  unfolding write_at padded
  disk_page-write_at_end_ne j below =
      ap (λ (t : Bytes). let q : Page = record { bytes = t } in q)
        (slice-write_ne padded (k * 4096) p.bytes (j * 4096) 4096 (inl (omega (arith, below)))
          ∙ slice-append_left file (replicate (k * 4096 + length p.bytes - length file) 0)
              (j * 4096) 4096 (omega (arith, below, whole)))
