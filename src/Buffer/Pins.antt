-- ===== src/Buffer/Pins.antt =====
-- Which pages are in use, and room for another where not all frames are.
use ryu_db.Base.{
  both_branches, ℕ, suc, ◌+◌, ◌≤◌, ◌<◌, ◌≡◌, ◌≢◌, refl, sym, ◌∙◌, arith, Option, none, some, List,
  [], ◌∷◌, false, length, leb, ◌==◌, ==_iff, if◌then◌else◌, ok,
}
use ryu_db.Base.Table.{Table, lookup, IsMap}
use ryu_db.Buffer.{Frame, BufferManager, first_find, evict, evict_victim, make_room}
use ryu_db.Buffer.View.{IsPool, first_find_lem}
use ryu_db.Buffer.Ready.{Fine, evict_victim_ready}

-- How often a page is held by those who use it.
abbrev pub count : ℕ → List ℕ → ℕ
count j [] = 0
count j (k ∷ ks) = (if k == j then 1 else 0) + count j ks

-- The pages in use are those of the list, each as often as it stands there, and no write fails.
pub record IsUsing (limit : ℕ) (held : List ℕ) (b : BufferManager) : Type 0 where
  pub pool : IsPool b
  pub pins : (j : ℕ) (g : Frame) → lookup j b.page_table ≡ some g → g.pin_count ≡ count j held
  pub there : (j : ℕ) → count j held ≢ 0 → (g : Frame) × (lookup j b.page_table ≡ some g)
  pub writes : b.world.io ≡ []
  pub size : b.max_size ≡ limit

-- The list without the first `k`.
abbrev without : ℕ → List ℕ → List ℕ
without k [] = []
without k (j ∷ js) = if j == k then js else j ∷ without k js

length-without : (k : ℕ) (js : List ℕ) → count k js ≢ 0 → suc (length (without k js)) ≡ length js
length-without k [] h = absurd (h refl)
length-without k (j ∷ js) h = ground (arith, length-without k js)

count-without : (k i : ℕ) (js : List ℕ) → i ≢ k → count i (without k js) ≡ count i js
count-without k i [] ne = refl
count-without k i (j ∷ js) ne = ground (arith, count-without k i js ne)

-- Where each key stands in the list, the table is no longer than the list.
length-IsMap :
    (t : Table Frame) (held : List ℕ)
    → IsMap t
    → ((j : ℕ) (g : Frame) → lookup j t ≡ some g → count j held ≢ 0)
    → length t ≤ length held
unfolding lookup
length-IsMap [] held map used = omega arith
length-IsMap ((k, f) ∷ rest) held map used =
    let mine : count k held ≢ 0 = used k f (rw ((==_iff k k).1 refl) refl) in
    let others = length-IsMap rest (without k held) map.1 λ j g found.
      let ne : j ≢ k = λ e. cc (map.0, found, e) in
      let apart : (k == j) ≡ false = ground (arith, ne) in
      let still : count j held ≢ 0 = used j g (rw apart found) in
      λ none_left. still (sym (count-without k j held ne) ∙ none_left) in
    omega (arith, others, length-without k held mine)

first_find-none :
    (t : Table Frame) (j : ℕ) (g : Frame)
    → first_find t ≡ none
    → lookup j t ≡ some g
    → g.pin_count ≢ 0
unfolding first_find lookup
first_find-none [] j g e found = absurd (cc found)
first_find-none ((k, f) ∷ rest) j g e found = ground (arith, first_find-none rest j g, e, found)

evict_found :
    (b : BufferManager) (v : Option (ℕ × Frame))
    → first_find (b.world.range_order b.page_table) ≡ v
    → v ≢ none
    → IsPool b
    → b.world.io ≡ []
    → Fine b (evict_victim v b)
evict_found b none e some_found h quiet = absurd (some_found refl)
evict_found b (some (id, f)) e some_found h quiet =
    let (map, same) = h.ranges b.page_table h.map in
    let (entry, free) = first_find_lem (b.world.range_order b.page_table) id f map e in
    evict_victim_ready id f b (h.frames id f (sym (same id) ∙ entry)).size quiet

-- Where fewer pages are in use than there are frames, one can go.
pub make_room-Fine :
    (limit : ℕ) (held : List ℕ) (b : BufferManager)
    → IsUsing limit held b
    → length held < limit
    → Fine b (make_room b)
unfolding evict
make_room-Fine limit held b h room =
    both_branches (Fine b) (leb b.max_size (length b.page_table)) (evict b) (ok tt, b)
      (λ full.
        evict_found b (first_find (b.world.range_order b.page_table)) refl
          (λ e.
            let (map, same) = h.pool.ranges b.page_table h.pool.map in
            let few = length-IsMap b.page_table held h.pool.map λ j g found unused.
              first_find-none (b.world.range_order b.page_table) j g e (same j ∙ found)
                (h.pins j g found ∙ unused) in
            ground (arith, full, few, room, h.size))
          h.pool h.writes)
      (λ space. (refl, (h.writes, refl)))
