-- ===== src/Page/Shape.antt =====
-- The shape of a slotted page: where its cells lie, and what `Get` reads there.
use ryu_db.Base.{
  ℕ, ◌+◌, ◌*◌, ◌≤◌, ◌<◌, ◌≡◌, refl, arith, true, false, Bytes, length, slice, slice?_at,
}
use ryu_db.Base.{u16, leb, ok, copy?_in}
use ryu_db.Bytes.Binary.{le_bytes, length-le_bytes}
use ryu_db.Page.{Page, read_field, put_field, get_slot_count, get_free_space_offset, holds_cells}
use ryu_db.Page.{slot_entry, put_range, get}

-- The entry of a slot in the directory.
abbrev pub cell_offset : Page → ℕ → ℕ
cell_offset p i = read_field p (32 + i * 4) 2

abbrev pub cell_length : Page → ℕ → ℕ
cell_length p i = read_field p (32 + i * 4 + 2) 2

-- The directory, the free space and the cells lie behind one another, and each cell is in the last.
pub record IsPage (p : Page) : Type 0 where
  pub size : length p.bytes ≡ 4096
  pub slotted : holds_cells p ≡ true
  pub room : 32 + get_slot_count p * 4 ≤ get_free_space_offset p
  pub free_fits : get_free_space_offset p ≤ 4096
  pub cells :
      (i : ℕ)
      → i < get_slot_count p
      → (get_free_space_offset p ≤ cell_offset p i) × (cell_offset p i + cell_length p i ≤ 4096)

-- The cell of a slot, as a part of the page.
abbrev pub cell_at : Page → ℕ → Bytes
cell_at p i = slice p.bytes (cell_offset p i) (cell_length p i)

pub get_lem : (p : Page) → IsPage p → (i : ℕ) → i < get_slot_count p → get i p ≡ ok (cell_at p i)
unfolding get read_field
get_lem p h i below =
    let entry : slot_entry i ≡ 32 + i * 4 = omega arith in
    let (lo, hi) = h.cells i below in
    let mid : u16 (32 + i * 4 + 2) ≡ 32 + i * 4 + 2 = omega (arith, h.room, h.free_fits) in
    let in_range : leb (get_slot_count p) i ≡ false = ground arith in
    let off_read =
      slice?_at p.bytes (32 + i * 4) (32 + i * 4 + 2) 2 (omega arith)
        (omega (arith, h.room, h.free_fits, h.size)) in
    let len_read =
      slice?_at p.bytes (32 + i * 4 + 2) (u16 (32 + i * 4 + 4)) 2
        (omega (arith, h.room, h.free_fits)) (omega (arith, h.room, h.free_fits, h.size)) in
    let cell_read =
      slice?_at p.bytes (cell_offset p i) (u16 (cell_offset p i + cell_length p i))
        (cell_length p i) (omega arith) (omega (arith, h.size)) in
    rw (h.slotted, entry, in_range, mid, off_read, len_read) (rw cell_read refl)

pub put_range_in :
    (lo hi v : ℕ) (p : Page)
    → lo + 2 ≡ hi
    → hi ≤ length p.bytes
    → put_range lo hi v p ≡ ok (put_field lo 2 v p)
unfolding put_field
put_range_in lo hi v p e h =
    rw (copy?_in p.bytes lo hi (le_bytes 2 v) (omega (arith, length-le_bytes 2 v)) h) refl
