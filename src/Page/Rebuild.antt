-- ===== src/Page/Rebuild.antt =====
-- The loops by which btree.go, recovery.go and vacuum.go read all cells of a page, and write a page
-- anew with a list of cells.
use ryu_db.Base.{ℕ, zero, suc, ◌+◌, ◌*◌, ◌≤◌, ◌<◌, ◌≡◌, ◌⊎◌, inl, inr, refl, sym, ap, ◌∙◌, arith}
use ryu_db.Base.{
  List, [], ◌∷◌, ◌++◌, Bytes, length, length-append, get_or, get_or-append_at, get_or-append_left,
}
use ryu_db.Base.{Result, ok, err, panic, ◌>>=◌, ltb, Bool-cases}
use ryu_db.Page.{Page, read_field, get_slot_count, get_free_space_offset, get_page_type}
use ryu_db.Page.{init, insert, get, get_page_id, magic}
use ryu_db.Page.Fields.{size_put_field, read_field-put_field, read_field-put_field_ne}
use ryu_db.Page.Shape.{IsPage}
use ryu_db.Page.Insert.{IsInserted, insert-IsInserted}
use mathlib.Core.List.{append_assoc, append-nil}

-- `for _, c := range cells { page.Insert(c) }`: the error is not looked at.
abbrev ignore_error : Page → Result (ℕ × Page) → Result Page
ignore_error p (ok (_, q)) = ok q
ignore_error p (err _) = ok p
ignore_error p panic = panic

unfoldable pub insert_all : List Bytes → Page → Result Page
insert_all [] p = ok p
insert_all (c ∷ cs) p = do q ← ignore_error p (insert c p); insert_all cs q

-- `c, _ := page.Get(i)`: the error is not looked at, and the slice is nil.
abbrev or_nil : Result Bytes → Result Bytes
or_nil (ok c) = ok c
or_nil (err _) = ok []
or_nil panic = panic

unfoldable pub cells_from : ℕ → ℕ → Page → Result (List Bytes)
cells_from zero i p = ok []
cells_from (suc left) i p = do c ← or_nil (get i p); cs ← cells_from left (i + 1) p; ok (c ∷ cs)

-- `for i := uint16(0); i < slotCount; i++ { c, _ := page.Get(i); ... }`
unfoldable pub page_cells : Page → Result (List Bytes)
unfolding cells_from
page_cells p = cells_from (get_slot_count p) 0 p

-- `page.Init(mode)` and the loop of inserts.
unfoldable pub rebuild : ℕ → List Bytes → Page → Result Page
rebuild mode cells p = insert_all cells (init mode p)

-- The room that cells take with their slots; upsertCell's totalSpaceNeeded less the header.
abbrev pub cells_size : List Bytes → ℕ
cells_size [] = 0
cells_size (c ∷ cs) = 4 + length c + cells_size cs

-- `p` is a slotted page with these cells, in the order of their slots, and free bytes behind them.
pub record Holds (p : Page) (cells : List Bytes) : Type 0 where
  pub is_page : IsPage p
  pub count : get_slot_count p ≡ length cells
  pub each : (i : ℕ) → i < length cells → get i p ≡ ok (get_or cells i [])
  pub used : 32 + cells_size cells + get_free_space_offset p ≡ 4096 + (32 + get_slot_count p * 4)

cells_from-ok :
    (cs : List Bytes) (i : ℕ) (p : Page)
    → ((j : ℕ) → j < length cs → get (i + j) p ≡ ok (get_or cs j []))
    → cells_from (length cs) i p ≡ ok cs
unfolding cells_from
cells_from-ok [] i p h = refl
cells_from-ok (c ∷ cs) i p h =
    let here : get i p ≡ ok c =
      (ap (λ k. get k p) (let e : i ≡ i + 0 = omega arith in e)) ∙ h 0 (omega arith) in
    let rest = cells_from-ok cs (i + 1) p (λ j below.
      ap (λ k. get k p) (let e : i + 1 + j ≡ i + suc j = omega arith in e)
      ∙ h (suc j) (omega arith)) in
    rw (here, rest) refl

-- The cells of a page, read one by one.
pub page_cells-Holds : (p : Page) (cells : List Bytes) → Holds p cells → page_cells p ≡ ok cells
unfolding page_cells
page_cells-Holds p cells h = rw (h.count) (
    cells_from-ok cells 0 p
      (λ j below. ap (λ k. get k p) (let e : 0 + j ≡ j = omega arith in e) ∙ h.each j below))

cells_size-append :
    (xs : List Bytes) (c : Bytes) → cells_size (xs ++ c ∷ []) ≡ cells_size xs + (4 + length c)
cells_size-append [] c = omega arith
cells_size-append (x ∷ xs) c = omega (arith, cells_size-append xs c)

-- One more cell.
Holds-insert :
    (c : Bytes) (p q : Page) (done : List Bytes)
    → Holds p done
    → IsInserted c p q
    → Holds q (done ++ c ∷ [])
Holds-insert c p q done h new = record {
  is_page = new.is_page;
  count = omega (arith, new.count, h.count, length-append {0} done (c ∷ []));
  each = λ i below. elim (Bool-cases (ltb i (length done))) [
    | inl old ↦
        let inside : i < length done = ground arith in
        new.others i (omega (arith, h.count))
        ∙ h.each i inside
        ∙ ap ok (sym (get_or-append_left done (c ∷ []) i [] inside))
    | inr last ↦
        let e : i ≡ length done = ground (arith, length-append {0} done (c ∷ [])) in
        rw (e, get_or-append_at done [] c []) (rw h.count at new.last)
  ];
  used = omega (arith, h.used, new.free, new.count, cells_size-append done c);
}

-- Where there is room for all cells, none is dropped, and the header stays.
insert_all-Holds :
    (cs done : List Bytes) (p : Page)
    → Holds p done
    → 32 + cells_size done + cells_size cs ≤ 4096
    → (q : Page) × (insert_all cs p ≡ ok q)
      × Holds q (done ++ cs)
      × ((o w : ℕ) → o + w ≤ 21 → read_field q o w ≡ read_field p o w)
unfolding insert_all
insert_all-Holds [] done p h room = (p, refl, rw append-nil h, λ o w away. refl)
insert_all-Holds (c ∷ cs) done p h room =
    let (q, stored, new) = insert-IsInserted c p h.is_page (omega (arith, h.used)) in
    let (r, rest, holds, kept) =
      insert_all-Holds cs (done ++ c ∷ []) q (Holds-insert c p q done h new)
        (omega (arith, cells_size-append done c)) in
    (r, rw stored rest, rw append_assoc at holds, λ o w away. kept o w away ∙ new.header o w away)

abbrev pub IsCellType : ℕ → Type 0
IsCellType mode = (mode ≡ 1) ⊎ (mode ≡ 2)

module _ (mode : ℕ) (p : Page) (cell_type : IsCellType mode) (size : length p.bytes ≡ 4096) where
  size_init : length (init mode p).bytes ≡ 4096
  unfolding init
  size_init = omega (arith, size_put_field)

  page_type-init : get_page_type (init mode p) ≡ mode
  unfolding init
  page_type-init = read_field-put_field 20 1 mode _ (omega (arith, size_put_field)) (omega arith)

  count-init : get_slot_count (init mode p) ≡ 0
  unfolding init
  count-init =
      read_field-put_field_ne 20 1 mode _ 21 2 (omega arith)
      ∙ read_field-put_field_ne 12 8 0 _ 21 2 (omega arith)
      ∙ read_field-put_field 21 2 0 _ (omega (arith, size_put_field)) (omega arith)

  free-init : get_free_space_offset (init mode p) ≡ 4096
  unfolding init
  free-init =
      read_field-put_field_ne 20 1 mode _ 23 2 (omega arith)
      ∙ read_field-put_field_ne 12 8 0 _ 23 2 (omega arith)
      ∙ read_field-put_field_ne 21 2 0 _ 23 2 (omega arith)
      ∙ read_field-put_field 23 2 4096 _ (omega (arith, size_put_field)) (omega arith)

  page_id-init : get_page_id (init mode p) ≡ get_page_id p
  unfolding init
  page_id-init =
      read_field-put_field_ne 20 1 mode _ 8 4 (omega arith)
      ∙ read_field-put_field_ne 12 8 0 _ 8 4 (omega arith)
      ∙ read_field-put_field_ne 21 2 0 _ 8 4 (omega arith)
      ∙ read_field-put_field_ne 23 2 4096 _ 8 4 (omega arith)
      ∙ read_field-put_field_ne 0 4 magic p 8 4 (omega arith)

  Holds-init : Holds (init mode p) []
  Holds-init = record {
    is_page = record {
      size = size_init;
      slotted = ground (arith, page_type-init);
      room = omega (arith, count-init, free-init);
      free_fits = omega (arith, free-init);
      cells = λ i below. absurd (omega (arith, count-init));
    };
    count = count-init;
    each = λ i below. elim below [ ];
    used = omega (arith, count-init, free-init);
  }

  -- Initialising a page as a leaf or an internal page and inserting cells that fit 4096 bytes with
  -- the header and their slots drops none: the page then holds exactly these cells in this order,
  -- with the type asked for and its old page id.
  pub rebuild-Holds :
      (cells : List Bytes)
      → 32 + cells_size cells ≤ 4096
      → (q : Page) × (rebuild mode cells p ≡ ok q)
        × Holds q cells
        × (page_cells q ≡ ok cells)
        × (get_page_type q ≡ mode)
        × (get_page_id q ≡ get_page_id p)
  unfolding rebuild
  rebuild-Holds cells room =
      let (q, stored, holds, kept) =
        insert_all-Holds cells [] (init mode p) Holds-init (omega arith) in
      (
        q,
        stored,
        holds,
        page_cells-Holds q cells holds,
        kept 20 1 (omega arith) ∙ page_type-init,
        kept 8 4 (omega arith) ∙ page_id-init,
      )
