-- ===== src/Tree/Route.antt =====
-- The child that findLeafPage goes to.
use ryu_db.Base.{
  ◌≡◌, inl, inr, refl, ap, true, List, [], ◌∷◌, none, some, Bool-cases, if◌then◌else◌, All,
}
use ryu_db.Base.{Bytes}
use ryu_db.Bytes.Order.{bytes_le, bytes_lt}
use ryu_db.Cell.{KeyCell}
use ryu_db.Tree.Descend.{Matched, match_loop, child_of, next_child_id}

-- The cells stand in the order of their keys, each key once.
abbrev pub IsRouting : List KeyCell → Type 0
IsRouting [] = Unit
IsRouting (k ∷ ks) = All (λ j. bytes_lt k.key j.key ≡ true) ks × IsRouting ks

-- The last cell whose key is not above the search key, as a reference definition.
abbrev pub covering : Bytes → Matched → List KeyCell → Matched
covering key m [] = m
covering key m (k ∷ ks) = covering key (if bytes_le k.key key then some k else m) ks

abbrev Above : Matched → List KeyCell → Type 0
Above none ks = Unit
Above (some m) ks = All (λ j. bytes_lt m.key j.key ≡ true) ks

match_loop-covering :
    (key : Bytes) (m : Matched) (ks : List KeyCell)
    → IsRouting ks
    → Above m ks
    → match_loop key m ks ≡ covering key m ks
unfolding match_loop
match_loop-covering key m [] h above = refl
match_loop-covering key none (k ∷ ks) h above = elim (Bool-cases (bytes_le k.key key)) [
  | inl low ↦ rw low (match_loop-covering key (some k) ks h.1 h.0)
  | inr high ↦ rw high (match_loop-covering key none ks h.1 tt)
]
match_loop-covering key (some m) (k ∷ ks) h above = elim (Bool-cases (bytes_le k.key key)) [
  | inl low ↦ rw (low, above.0) (match_loop-covering key (some k) ks h.1 h.0)
  | inr high ↦ rw high (match_loop-covering key (some m) ks h.1 above.1)
]

-- On cells in the order of their keys, findLeafPage goes to the child of the last cell whose key is
-- not above the search key, or to the first child where every key is above it.
pub next_child_id-covering :
    (key : Bytes) (ks : List KeyCell)
    → IsRouting ks
    → next_child_id key ks ≡ child_of (covering key none ks) ks
unfolding next_child_id
next_child_id-covering key ks h = ap (λ m. child_of m ks) (match_loop-covering key none ks h tt)
