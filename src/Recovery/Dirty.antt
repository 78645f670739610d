-- ===== src/Recovery/Dirty.antt =====
-- The dirty page table of a checkpoint, and what the analysis makes of it.
use mathlib.Core.Path.{subst}
use ryu_db.Base.{
  ℕ, ◌≡◌, refl, ap, ◌∙◌, Bool-cases, inl, inr, Option, none, some, [], ◌∷◌, ◌==◌, ==_iff,
  if◌then◌else◌,
}
use ryu_db.Base.Table.{Table, lookup, insert, IsMap, lookup-insert, insert-IsMap}
use ryu_db.Wal.Checkpoint.{insert_entries}
use ryu_db.Buffer.{Frame, BufferManager, dirty_loop, get_dirty_page_table}
use ryu_db.Buffer.View.{IsPool}

-- The LSN from which on a frame is dirty, if it is.
abbrev pub dirty_from : Option Frame → Option ℕ → Option ℕ
dirty_from none other = other
dirty_from (some f) other = if f.is_dirty then some f.rec_lsn else other

abbrev entry_or : Option ℕ → Option ℕ → Option ℕ
entry_or none other = other
entry_or (some lsn) other = some lsn

lookup-dirty_loop :
    (t : Table Frame) (dpt : Table ℕ) (j : ℕ)
    → IsMap t
    → lookup j (dirty_loop t dpt) ≡ dirty_from (lookup j t) (lookup j dpt)
unfolding dirty_loop lookup
lookup-dirty_loop [] dpt j map = refl
lookup-dirty_loop ((k, f) ∷ rest) dpt j map =
    let dpt' = if f.is_dirty then insert k f.rec_lsn dpt else dpt in
    elim (Bool-cases (k == j)) [
      | inl here ↦
          let same : k ≡ j = (==_iff k j).0 here in
          let gone : lookup j rest ≡ none = subst (λ i. lookup i rest ≡ none) same map.0 in
          lookup-dirty_loop rest dpt' j map.1
          ∙ (rw (gone, here)
              (elim (Bool-cases f.is_dirty) [
                | inl dirty ↦ rw dirty (lookup-insert k j f.rec_lsn dpt ∙ (rw here refl))
                | inr clean ↦ rw clean refl
              ]))
      | inr apart ↦
          let others : lookup j dpt' ≡ lookup j dpt = elim (Bool-cases f.is_dirty) [
            | inl dirty ↦ rw dirty (lookup-insert k j f.rec_lsn dpt ∙ (rw apart refl))
            | inr clean ↦ rw clean refl
          ] in
          lookup-dirty_loop rest dpt' j map.1
          ∙ (rw (apart) (ap (dirty_from (lookup j rest)) others))
    ]

dirty_loop-IsMap : (t : Table Frame) (dpt : Table ℕ) → IsMap dpt → IsMap (dirty_loop t dpt)
unfolding dirty_loop
dirty_loop-IsMap [] dpt h = h
dirty_loop-IsMap ((k, f) ∷ rest) dpt h = dirty_loop-IsMap rest _ (elim (Bool-cases f.is_dirty) [
  | inl dirty ↦ rw dirty (insert-IsMap k f.rec_lsn dpt h)
  | inr clean ↦ rw clean h
])

lookup-insert_entries :
    (t dpt : Table ℕ) (j : ℕ)
    → IsMap t
    → lookup j (insert_entries t dpt) ≡ entry_or (lookup j t) (lookup j dpt)
unfolding lookup
lookup-insert_entries [] dpt j map = refl
lookup-insert_entries ((k, v) ∷ rest) dpt j map = elim (Bool-cases (k == j)) [
  | inl here ↦
      let same : k ≡ j = (==_iff k j).0 here in
      let gone : lookup j rest ≡ none = subst (λ i. lookup i rest ≡ none) same map.0 in
      lookup-insert_entries rest (insert k v dpt) j map.1
      ∙ (rw (gone, here) (lookup-insert k j v dpt ∙ (rw here refl)))
  | inr apart ↦
      lookup-insert_entries rest (insert k v dpt) j map.1
      ∙ (rw (apart) (ap (entry_or (lookup j rest)) (lookup-insert k j v dpt ∙ (rw apart refl))))
]

-- The table that is read back has the dirty pages, each with the LSN that its frame holds.
pub lookup-read_back :
    (b : BufferManager)
    → IsPool b
    → (j : ℕ)
    → lookup j (insert_entries (get_dirty_page_table b) [])
      ≡ dirty_from (lookup j b.page_table) none
unfolding get_dirty_page_table lookup
lookup-read_back b h j =
    let (map, same) = h.ranges b.page_table h.map in
    let t = b.world.range_order b.page_table in
    lookup-insert_entries (dirty_loop t []) [] j (dirty_loop-IsMap t [] tt)
    ∙ whole (lookup j (dirty_loop t []))
    ∙ lookup-dirty_loop t [] j map
    ∙ ap (λ o. dirty_from o none) (same j)
  where
    whole : (o : Option ℕ) → entry_or o none ≡ o
    whole none = refl
    whole (some lsn) = refl
