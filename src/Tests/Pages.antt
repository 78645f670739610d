-- ===== src/Tests/Pages.antt =====
-- Runs of internal/storage/page.go.
use ryu_db.Base.{
  ℕ, ◌≡◌, inl, refl, arith, true, List, [], ◌∷◌, Bytes, length, length-replicate, replicate, ok,
  panic,
}
use ryu_db.Page.{
  Page, insert, get_slot_count, get_page_type, get_page_id, set_checksum, verify_checksum,
}
use ryu_db.Page.Insert.{IsInserted, insert-IsInserted, insert_panics}
use ryu_db.Page.Rebuild.{Holds, rebuild, rebuild-Holds, page_cells}
use ryu_db.Page.Checksum.{verify-set_checksum}

abbrev pub blank : Page
blank = record { bytes = replicate 4096 0 }

pub size_blank : length blank.bytes ≡ 4096
size_blank = length-replicate 4096 0

abbrev two_cells : List Bytes
two_cells = (1 ∷ 2 ∷ []) ∷ (3 ∷ []) ∷ []

two_cells_read :
    (q : Page) × (rebuild 1 two_cells blank ≡ ok q)
    × Holds q two_cells
    × (page_cells q ≡ ok two_cells)
    × (get_page_type q ≡ 1)
    × (get_page_id q ≡ get_page_id blank)
two_cells_read = rebuild-Holds 1 blank (inl refl) size_blank two_cells (omega arith)

-- A leaf with two cells.
filled : Page
filled = two_cells_read.0

filled-Holds : Holds filled two_cells
unfolding filled
filled-Holds = two_cells_read.2

rebuild-Holds_example :
    (q : Page) × (rebuild 1 two_cells blank ≡ ok q)
    × Holds q two_cells
    × (page_cells q ≡ ok two_cells)
    × (get_page_type q ≡ 1)
    × (get_page_id q ≡ get_page_id blank)
rebuild-Holds_example = rebuild-Holds 1 blank (inl refl) size_blank two_cells (omega arith)

insert-IsInserted_example :
    (q : Page) × (insert (9 ∷ []) filled ≡ ok (get_slot_count filled, q))
    × IsInserted (9 ∷ []) filled q
insert-IsInserted_example =
    insert-IsInserted (9 ∷ []) filled filled-Holds.is_page
      (omega (arith, filled-Holds.count, filled-Holds.used))

insert_panics_example : insert (replicate 65530 0) filled ≡ panic
insert_panics_example =
    insert_panics (replicate 65530 0) filled filled-Holds.is_page
      (omega (arith, length-replicate {A = ℕ} 65530 0))
      (omega (arith, length-replicate {A = ℕ} 65530 0))

verify-set_checksum_example : verify_checksum (set_checksum blank) ≡ (true, set_checksum blank)
verify-set_checksum_example = verify-set_checksum blank (omega (arith, size_blank))
