-- ===== src/Page/Insert.antt =====
-- `Insert`: on a page with room it adds the cell as the last slot and changes no other.
use ryu_db.Base.{
  ℕ, ◌+◌, ◌-◌, ◌*◌, ◌≤◌, ◌<◌, ◌≡◌, ◌⊎◌, inl, inr, refl, sym, ap, ◌∙◌, arith, true, false,
}
use ryu_db.Base.{
  Bytes, length, slice, write, copy?, copy?_in, length-write, slice-write_same, slice-write_ne,
}
use ryu_db.Base.{u16, ltb, ok, err, panic, page_full, none, Bool-cases}
use ryu_db.Bytes.Binary.{le_value}
use ryu_db.Page.{Page, read_field, put_field, get_slot_count, get_free_space_offset}
use ryu_db.Page.{set_slot_count, set_free_space_offset, slot_entry, insert, get}
use ryu_db.Page.Fields.{
  size_put_field, read_field-put_field, read_field-put_field_ne, slice-put_field_ne,
}
use ryu_db.Page.Shape.{IsPage, cell_offset, cell_length, get_lem, put_range_in}

-- The page after the cell's bytes are copied and the free space is cut back.
copied : Bytes → Page → Page
copied cell p =
    let new_free = get_free_space_offset p - length cell in
    set_free_space_offset new_free (record { bytes = write p.bytes new_free cell })

-- The page after the directory entry is written, too, and after the count is.
entered : Bytes → Page → Page
entered cell p =
    let n = get_slot_count p in
    let new_free = get_free_space_offset p - length cell in
    put_field (32 + n * 4 + 2) 2 (length cell) (put_field (32 + n * 4) 2 new_free (copied cell p))

inserted : Bytes → Page → Page
inserted cell p = set_slot_count (get_slot_count p + 1) (entered cell p)

-- `q` is `p` with one more cell, and with less free space.
pub record IsInserted (cell : Bytes) (p q : Page) : Type 0 where
  pub is_page : IsPage q
  pub count : get_slot_count q ≡ get_slot_count p + 1
  pub free : get_free_space_offset q + length cell ≡ get_free_space_offset p
  pub last : get (get_slot_count p) q ≡ ok cell
  pub others : (i : ℕ) → i < get_slot_count p → get i q ≡ get i p
  pub header : (o w : ℕ) → o + w ≤ 21 → read_field q o w ≡ read_field p o w

module _ (cell : Bytes) (p : Page) (h : IsPage p)
    (fits : 36 + get_slot_count p * 4 + length cell ≤ get_free_space_offset p) where
  size_copied : length (copied cell p).bytes ≡ 4096
  unfolding copied
  size_copied =
      size_put_field 23 2 (get_free_space_offset p - length cell)
        (record { bytes = write p.bytes (get_free_space_offset p - length cell) cell })
      ∙ length-write p.bytes (get_free_space_offset p - length cell) cell
      ∙ h.size

  insert_lem : insert cell p ≡ ok (get_slot_count p, inserted cell p)
  unfolding insert
  insert_lem =
      let n = get_slot_count p in
      let free = get_free_space_offset p in
      let entry : slot_entry n ≡ 32 + n * 4 = omega (arith, h.room, h.free_fits) in
      let mid : u16 (32 + n * 4 + 2) ≡ 32 + n * 4 + 2 = omega (arith, h.room, h.free_fits) in
      let end : u16 (32 + n * 4 + 4) ≡ 32 + n * 4 + 2 + 2 = omega (arith, h.room, h.free_fits) in
      let next : u16 (n + 1) ≡ n + 1 = omega (arith, h.room, h.free_fits) in
      let len : u16 (length cell) ≡ length cell = omega (arith, h.free_fits) in
      let new_free : u16 (free + 65536 - length cell) ≡ free - length cell =
        omega (arith, h.free_fits) in
      let room : ltb free (u16 (32 + n * 4 + u16 (length cell + 4))) ≡ false =
        ground (arith, h.room, h.free_fits) in
      let moved =
        copy?_in p.bytes (free - length cell) free cell (omega arith)
          (omega (arith, h.size, h.free_fits)) in
      let first =
        put_range_in (32 + n * 4) (32 + n * 4 + 2) (free - length cell) (copied cell p) refl
          (omega (arith, h.free_fits, size_copied)) in
      let second =
        put_range_in (32 + n * 4 + 2) (32 + n * 4 + 2 + 2) (length cell)
          (put_field (32 + n * 4) 2 (free - length cell) (copied cell p)) refl
          (omega (
            arith,
            h.free_fits,
            size_copied,
            size_put_field (32 + n * 4) 2 (free - length cell) (copied cell p),
          )) in
      rw (h.slotted, entry, len, new_free, room, mid, end, next, moved)
        (unfold copied entered inserted in rw (first, second) refl)

  -- What lies before the count, between the header and the directory's end, or behind the free
  -- space stays.
  slice-inserted :
      (o w : ℕ)
      → (o + w ≤ 21)
        ⊎ (25 ≤ o) × (o + w ≤ 32 + get_slot_count p * 4)
        ⊎ (get_free_space_offset p ≤ o)
      → slice (inserted cell p).bytes o w ≡ slice p.bytes o w
  unfolding inserted entered copied
  slice-inserted o w away =
      let n = get_slot_count p in
      let new_free = get_free_space_offset p - length cell in
      slice-put_field_ne 21 2 (n + 1) _ o w (omega (arith, h.room))
      ∙ slice-put_field_ne (32 + n * 4 + 2) 2 (length cell) _ o w (omega (arith, h.room))
      ∙ slice-put_field_ne (32 + n * 4) 2 new_free _ o w (omega (arith, h.room))
      ∙ slice-put_field_ne 23 2 new_free _ o w (omega (arith, h.room))
      ∙ slice-write_ne p.bytes new_free cell o w (omega (arith, h.room))

  size_entered : length (entered cell p).bytes ≡ 4096
  unfolding entered
  size_entered =
      let n = get_slot_count p in
      let new_free = get_free_space_offset p - length cell in
      size_put_field (32 + n * 4 + 2) 2 (length cell)
        (put_field (32 + n * 4) 2 new_free (copied cell p))
      ∙ size_put_field (32 + n * 4) 2 new_free (copied cell p)
      ∙ size_copied

  size_inserted : length (inserted cell p).bytes ≡ 4096
  unfolding inserted
  size_inserted = size_put_field 21 2 (get_slot_count p + 1) (entered cell p) ∙ size_entered

  count-inserted : get_slot_count (inserted cell p) ≡ get_slot_count p + 1
  unfolding inserted
  count-inserted =
      read_field-put_field 21 2 (get_slot_count p + 1) (entered cell p)
        (omega (arith, size_entered)) (omega (arith, h.room, h.free_fits))

  free-inserted : get_free_space_offset (inserted cell p) ≡ get_free_space_offset p - length cell
  unfolding inserted entered copied
  free-inserted =
      let n = get_slot_count p in
      let new_free = get_free_space_offset p - length cell in
      read_field-put_field_ne 21 2 (n + 1) _ 23 2 (omega arith)
      ∙ read_field-put_field_ne (32 + n * 4 + 2) 2 (length cell) _ 23 2 (omega arith)
      ∙ read_field-put_field_ne (32 + n * 4) 2 new_free _ 23 2 (omega arith)
      ∙ read_field-put_field 23 2 new_free (record { bytes = write p.bytes new_free cell })
          (omega (arith, length-write p.bytes new_free cell, h.size)) (omega (arith, h.free_fits))

  offset-inserted :
      cell_offset (inserted cell p) (get_slot_count p) ≡ get_free_space_offset p - length cell
  unfolding inserted entered
  offset-inserted =
      let n = get_slot_count p in
      let new_free = get_free_space_offset p - length cell in
      read_field-put_field_ne 21 2 (n + 1) _ (32 + n * 4) 2 (omega arith)
      ∙ read_field-put_field_ne (32 + n * 4 + 2) 2 (length cell) _ (32 + n * 4) 2 (omega arith)
      ∙ read_field-put_field (32 + n * 4) 2 new_free (copied cell p)
          (omega (arith, size_copied, h.free_fits)) (omega (arith, h.free_fits))

  length-inserted : cell_length (inserted cell p) (get_slot_count p) ≡ length cell
  unfolding inserted entered
  length-inserted =
      let n = get_slot_count p in
      let new_free = get_free_space_offset p - length cell in
      read_field-put_field_ne 21 2 (n + 1) _ (32 + n * 4 + 2) 2 (omega arith)
      ∙ read_field-put_field (32 + n * 4 + 2) 2 (length cell)
          (put_field (32 + n * 4) 2 new_free (copied cell p))
          (omega (
            arith,
            size_copied,
            h.free_fits,
            size_put_field (32 + n * 4) 2 new_free (copied cell p),
          ))
          (omega (arith, h.free_fits))

  bytes-inserted :
      slice (inserted cell p).bytes (get_free_space_offset p - length cell) (length cell) ≡ cell
  unfolding inserted entered copied
  bytes-inserted =
      let n = get_slot_count p in
      let new_free = get_free_space_offset p - length cell in
      slice-put_field_ne 21 2 (n + 1) _ new_free (length cell) (omega arith)
      ∙ slice-put_field_ne (32 + n * 4 + 2) 2 (length cell) _ new_free (length cell) (omega arith)
      ∙ slice-put_field_ne (32 + n * 4) 2 new_free _ new_free (length cell) (omega arith)
      ∙ slice-put_field_ne 23 2 new_free _ new_free (length cell) (omega arith)
      ∙ slice-write_same p.bytes new_free cell (omega (arith, h.size, h.free_fits))

  field-inserted :
      (o w : ℕ)
      → (o + w ≤ 21)
        ⊎ (25 ≤ o) × (o + w ≤ 32 + get_slot_count p * 4)
        ⊎ (get_free_space_offset p ≤ o)
      → read_field (inserted cell p) o w ≡ read_field p o w
  unfolding read_field
  field-inserted o w away = ap le_value (slice-inserted o w away)

  inserted-IsPage : IsPage (inserted cell p)
  inserted-IsPage = record {
    size = size_inserted;
    slotted = rw (field-inserted 20 1 (omega arith)) h.slotted;
    room = omega (arith, count-inserted, free-inserted);
    free_fits = omega (arith, free-inserted, h.free_fits);
    cells = λ i below. elim (Bool-cases (ltb i (get_slot_count p))) [
      | inl old ↦ ground (
        arith,
        h.cells i,
        free-inserted,
        field-inserted (32 + i * 4) 2,
        field-inserted (32 + i * 4 + 2) 2,
      )
      | inr new ↦
          let e : i ≡ get_slot_count p = ground (arith, count-inserted) in
          rw e (omega (arith, free-inserted, offset-inserted, length-inserted, h.free_fits))
    ];
  }

  last-inserted : get (get_slot_count p) (inserted cell p) ≡ ok cell
  last-inserted =
      get_lem (inserted cell p) inserted-IsPage (get_slot_count p) (omega (arith, count-inserted))
      ∙ ap ok (rw (offset-inserted, length-inserted) bytes-inserted)

  others-inserted : (i : ℕ) → i < get_slot_count p → get i (inserted cell p) ≡ get i p
  others-inserted i below =
      let (low, high) = h.cells i below in
      get_lem (inserted cell p) inserted-IsPage i (omega (arith, count-inserted))
      ∙ rw
          (
            field-inserted (32 + i * 4) 2 (omega arith),
            field-inserted (32 + i * 4 + 2) 2 (omega arith),
            slice-inserted (cell_offset p i) (cell_length p i) (omega arith),
          )
          (sym (get_lem p h i below))

  -- On a slotted page with room for the cell and its slot, Insert returns the old slot count, and
  -- a slotted page whose last cell is the new one; the other cells and the header but for the count
  -- and the free space are unchanged.
  pub insert-IsInserted :
      (q : Page) × (insert cell p ≡ ok (get_slot_count p, q)) × IsInserted cell p q
  insert-IsInserted = (
    inserted cell p,
    insert_lem,
    record {
      is_page = inserted-IsPage;
      count = count-inserted;
      free = omega (arith, free-inserted);
      last = last-inserted;
      others = others-inserted;
      header = λ o w away. field-inserted o w (inl away);
    },
  )

-- On a slotted page without room for the cell and its slot, Insert answers "page full", as long as
-- the directory and the cell together stay below 2 ^ 16 bytes.
pub insert_full :
    (cell : Bytes) (p : Page)
    → IsPage p
    → get_free_space_offset p < 36 + get_slot_count p * 4 + length cell
    → 36 + get_slot_count p * 4 + length cell < 65536
    → insert cell p ≡ err page_full
unfolding insert
insert_full cell p h tight small =
    let n = get_slot_count p in
    let entry : slot_entry n ≡ 32 + n * 4 = omega (arith, h.room, h.free_fits) in
    let len : u16 (length cell) ≡ length cell = omega arith in
    let full : ltb (get_free_space_offset p) (u16 (32 + n * 4 + u16 (length cell + 4))) ≡ true =
      ground arith in
    rw (h.slotted, entry, len, full) refl

-- On a slotted page, for a cell below 65532 bytes that the directory and its slot carry to 2 ^ 16 or
-- above, the sum of the check wraps and the copy behind it is out of range: Insert panics instead of
-- answering "page full".
pub insert_panics :
    (cell : Bytes) (p : Page)
    → IsPage p
    → length cell < 65532
    → 65536 ≤ 36 + get_slot_count p * 4 + length cell
    → insert cell p ≡ panic
unfolding insert
insert_panics cell p h small large =
    let n = get_slot_count p in
    let free = get_free_space_offset p in
    let entry : slot_entry n ≡ 32 + n * 4 = omega (arith, h.room, h.free_fits) in
    let len : u16 (length cell) ≡ length cell = omega arith in
    let passes : ltb free (u16 (32 + n * 4 + u16 (length cell + 4))) ≡ false =
      ground (arith, h.room, h.free_fits) in
    let new_free : u16 (free + 65536 - length cell) ≡ free + 65536 - length cell =
      omega (arith, h.room, h.free_fits) in
    let out : copy? p.bytes (free + 65536 - length cell) free cell ≡ none =
      unfold copy? in ground arith in
    rw (h.slotted, entry, len, passes, new_free, out) refl
