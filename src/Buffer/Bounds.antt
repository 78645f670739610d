-- ===== src/Buffer/Bounds.antt =====
-- The buffer manager never has more frames than it was given room for.
use ryu_db.Base.{
  ℕ, suc, ◌≤◌, ◌<◌, ◌≡◌, ◌≢◌, refl, arith, Bool-cases, inl, inr, Option, none, some, [], ◌∷◌,
  length, leb, Result, ok, err, panic,
}
use ryu_db.Base.State.{and_then}
use ryu_db.Base.Table.{Table, lookup, insert, remove}
use ryu_db.Page.{Page, new_page}
use ryu_db.Pager.{read_page}
use ryu_db.Buffer.{
  Frame, BufferManager, write_back, first_find, evict, evict_victim, drop_frame, make_room,
  add_frame, get_found, get_frame, fetch_page_for_read, pin_frame,
}
use ryu_db.Buffer.View.{IsPool, first_find_lem}

length-insert : (key : ℕ) (f : Frame) (t : Table Frame) → length (insert key f t) ≤ suc (length t)
unfolding insert
length-insert key f [] = omega arith
length-insert key f ((k, g) ∷ rest) = ground (arith, length-insert key f rest)

length-insert_old :
    (key : ℕ) (f : Frame) (t : Table Frame)
    → lookup key t ≢ none
    → length (insert key f t) ≡ length t
unfolding insert lookup
length-insert_old key f [] h = absurd (h refl)
length-insert_old key f ((k, g) ∷ rest) h = ground (arith, length-insert_old key f rest, h)

length-remove-le : (key : ℕ) (t : Table Frame) → length (remove key t) ≤ length t
unfolding remove
length-remove-le key [] = omega arith
length-remove-le key ((k, g) ∷ rest) = ground (arith, length-remove-le key rest)

length-remove :
    (key : ℕ) (t : Table Frame) → lookup key t ≢ none → suc (length (remove key t)) ≤ length t
unfolding remove lookup
length-remove key [] h = absurd (h refl)
length-remove key ((k, g) ∷ rest) h =
    ground (arith, length-remove key rest, length-remove-le key rest, h)

-- There are no more frames than there is room for, and that is as it was.
abbrev pub Within : ℕ → BufferManager → Type 0
Within limit b = (b.max_size ≡ limit) × (length b.page_table ≤ limit)

-- Room for one more, where it was made.
abbrev Roomy : ℕ → Result (Unit {0}) × BufferManager → Type 0
Roomy limit r = Within limit r.1 × (r.0 ≡ ok tt → length r.1.page_table < limit)

drop-Roomy :
    (limit id : ℕ) (b : BufferManager) (r : Result (Unit {0}))
    → Within limit b
    → lookup id b.page_table ≢ none
    → Roomy limit (and_then (r, b) λ done. drop_frame id)
drop-Roomy limit id b (ok done) (size, few) there =
    let less = length-remove id b.page_table there in
    ((size, omega (arith, less, few)), λ e. omega (arith, less, few))
drop-Roomy limit id b (err x) within there = (within, λ e. absurd (cc e))
drop-Roomy limit id b panic within there = (within, λ e. absurd (cc e))

evict_victim-Roomy :
    (limit : ℕ) (v : Option (ℕ × Frame)) (b : BufferManager)
    → IsPool b
    → first_find (b.world.range_order b.page_table) ≡ v
    → Within limit b
    → Roomy limit (evict_victim v b)
unfolding write_back
evict_victim-Roomy limit none b h e within = (within, λ e'. absurd (cc e'))
evict_victim-Roomy limit (some (id, f)) b h e within =
    let (map, same) = h.ranges b.page_table h.map in
    let there : lookup id b.page_table ≢ none = λ gone.
      cc ((first_find_lem (b.world.range_order b.page_table) id f map e).0, same id, gone) in
    elim (Bool-cases f.is_dirty) [
      | inl dirty ↦
          rw dirty
            (drop-Roomy limit id (write_back id f.page b).1 (write_back id f.page b).0 within there)
      | inr clean ↦ rw clean (drop-Roomy limit id b (ok tt) within there)
    ]

make_room-Roomy :
    (limit : ℕ) (b : BufferManager) → IsPool b → Within limit b → Roomy limit (make_room b)
unfolding evict
make_room-Roomy limit b h within = elim (Bool-cases (leb b.max_size (length b.page_table))) [
  | inl full ↦ rw full (evict_victim-Roomy limit _ b h refl within)
  | inr room ↦ rw room (within, λ e. ground (arith, room, within))
]

added-Within :
    (limit id mode : ℕ) (r : Result (Unit {0}) × BufferManager)
    → Roomy limit r
    → Within limit (and_then r λ done b'. add_frame id (read_page id (new_page mode) b'.file) b').1
added-Within limit id mode (ok done, b) (within, room) =
    of_page (read_page id (new_page mode) b.file)
  where
    of_page : (p : Result Page) → Within limit (add_frame id p b).1
    of_page (ok p) = (within.0, omega (arith, length-insert id _ b.page_table, room refl))
    of_page (err x) = within
    of_page panic = within
added-Within limit id mode (err x, b) (within, room) = within
added-Within limit id mode (panic, b) (within, room) = within

get_found-Within :
    (limit id mode : ℕ) (o : Option Frame) (b : BufferManager)
    → IsPool b
    → lookup id b.page_table ≡ o
    → Within limit b
    → Within limit (get_found id mode o b).1
get_found-Within limit id mode (some f) b h e (size, few) = (
  size,
  omega (arith, few, length-insert_old id (pin_frame f) b.page_table (λ gone. cc (e, gone))),
)
get_found-Within limit id mode none b h e within =
    added-Within limit id mode (make_room b) (make_room-Roomy limit b h within)

fetched_state : (r : Result Frame × BufferManager) → (and_then r λ f b'. (ok f.page, b')).1 ≡ r.1
fetched_state (ok f, b) = refl
fetched_state (err x, b) = refl
fetched_state (panic, b) = refl

-- On a well-formed pool with no more frames than it has room for, FetchPageForRead of any page leaves
-- no more frames than that, whatever becomes of its writes and in whatever order it ranges over the
-- frames, with an error or without, and the room stays the same.
pub fetch_page_for_read-Within :
    (limit id mode : ℕ) (b : BufferManager)
    → IsPool b
    → Within limit b
    → Within limit (fetch_page_for_read id mode b).1
unfolding fetch_page_for_read get_frame
fetch_page_for_read-Within limit id mode b h within =
    rw (fetched_state (get_frame id mode b)) (get_found-Within limit id mode _ b h refl within)
