-- ===== src/Tree/Content.antt =====
-- The LSN of a slotted page is not part of its cells.
use ryu_db.Base.{ℕ, zero, suc, ◌+◌, ◌*◌, ◌≤◌, ◌<◌, ◌≡◌, refl, sym, ap, ◌∙◌, arith, inr, ok}
use ryu_db.Page.{Page, read_field, get_slot_count, get}
use ryu_db.Page.Fields.{size_put_field, read_field-put_field_ne, slice-put_field_ne}
use ryu_db.Page.Shape.{IsPage, cell_offset, cell_length, cell_at, get_lem}
use ryu_db.Base.{List, Bytes}
use ryu_db.Page.Rebuild.{Holds, cells_from, page_cells}
use ryu_db.Buffer.View.{content}

pub content-field : (p : Page) (o w : ℕ) → 20 ≤ o → read_field (content p) o w ≡ read_field p o w
content-field p o w h = read_field-put_field_ne 12 8 0 p o w (inr (omega (arith, h)))

IsPage-content : (p : Page) → IsPage (content p) → IsPage p
IsPage-content p h =
    let type_same = content-field p 20 1 (omega arith) in
    let count = content-field p 21 2 (omega arith) in
    let free = content-field p 23 2 (omega arith) in
    record {
      size = sym (size_put_field 12 8 0 p) ∙ h.size;
      slotted = rw type_same at h.slotted;
      room = omega (arith, h.room, count, free);
      free_fits = omega (arith, h.free_fits, free);
      cells = λ i below.
          let (low, high) = h.cells i (omega (arith, below, count)) in
          let off = content-field p (32 + i * 4) 2 (omega arith) in
          let len = content-field p (32 + i * 4 + 2) 2 (omega arith) in
          (omega (arith, low, off, free), omega (arith, high, off, len));
    }

pub content-IsPage : (p : Page) → IsPage p → IsPage (content p)
content-IsPage p h =
    let type_same = content-field p 20 1 (omega arith) in
    let count = content-field p 21 2 (omega arith) in
    let free = content-field p 23 2 (omega arith) in
    record {
      size = size_put_field 12 8 0 p ∙ h.size;
      slotted = rw type_same h.slotted;
      room = omega (arith, h.room, count, free);
      free_fits = omega (arith, h.free_fits, free);
      cells = λ i below.
          let (low, high) = h.cells i (omega (arith, below, count)) in
          let off = content-field p (32 + i * 4) 2 (omega arith) in
          let len = content-field p (32 + i * 4 + 2) 2 (omega arith) in
          (omega (arith, low, off, free), omega (arith, high, off, len));
    }

get-content :
    (p : Page) (i : ℕ) → IsPage (content p) → i < get_slot_count p → get i p ≡ get i (content p)
get-content p i h below =
    let count = content-field p 21 2 (omega arith) in
    let free = content-field p 23 2 (omega arith) in
    let inner = IsPage-content p h in
    let (low, high) = inner.cells i below in
    let off = content-field p (32 + i * 4) 2 (omega arith) in
    let len = content-field p (32 + i * 4 + 2) 2 (omega arith) in
    let same : cell_at (content p) i ≡ cell_at p i =
      rw (off, len)
        (slice-put_field_ne 12 8 0 p (cell_offset p i) (cell_length p i)
          (inr (omega (arith, low, inner.room)))) in
    get_lem p inner i below
    ∙ ap ok (sym same)
    ∙ sym (get_lem (content p) h i (omega (arith, below, count)))

cells_from-content :
    (p : Page) (left i : ℕ)
    → IsPage (content p)
    → i + left ≤ get_slot_count p
    → cells_from left i p ≡ cells_from left i (content p)
unfolding cells_from
cells_from-content p zero i h inside = refl
cells_from-content p (suc left) i h inside =
    rw
      (
        get-content p i h (omega (arith, inside)),
        cells_from-content p left (i + 1) h (omega (arith, inside)),
      )
      refl

pub page_cells-content : (p : Page) → IsPage (content p) → page_cells p ≡ page_cells (content p)
unfolding page_cells
page_cells-content p h =
    rw (content-field p 21 2 (omega arith))
      (cells_from-content p (get_slot_count p) 0 h (omega arith))

pub content-Holds : (p : Page) (cells : List Bytes) → Holds p cells → Holds (content p) cells
content-Holds p cells h =
    let is_page = content-IsPage p h.is_page in
    let count = content-field p 21 2 (omega arith) in
    let free = content-field p 23 2 (omega arith) in
    record {
      is_page = is_page;
      count = count ∙ h.count;
      each =
          λ i below. sym (get-content p i is_page (omega (arith, below, h.count))) ∙ h.each i below;
      used = omega (arith, h.used, count, free);
    }

pub Holds-content : (p : Page) (cells : List Bytes) → Holds (content p) cells → Holds p cells
Holds-content p cells h =
    let count = content-field p 21 2 (omega arith) in
    let free = content-field p 23 2 (omega arith) in
    record {
      is_page = IsPage-content p h.is_page;
      count = sym count ∙ h.count;
      each = λ i below.
          get-content p i h.is_page (omega (arith, below, h.count, count)) ∙ h.each i below;
      used = omega (arith, h.used, count, free);
    }
