-- ===== src/Base/Table.antt =====
-- Go's maps with integer keys, as association lists. A key stands at most once: `IsMap`.
use Prim.Native.Nat.{ℕ}
use mathlib.Core.Path.{◌≡◌, refl}
use mathlib.Core.Option.{Option, none, some}
use mathlib.Core.List.{List, [], ◌∷◌}
use native.Mathlib.Omega.{arith}
use ryu_db.Base.Tests.{◌==◌, if◌then◌else◌}

abbrev pub Table {ℓ} : Type ℓ → Type ℓ
Table V = List (ℕ × V)

module _ {ℓ} {V : Type ℓ} where
  unfoldable pub lookup : ℕ → Table V → Option V
  lookup key [] = none
  lookup key ((other, new) ∷ rest) = if other == key then some new else lookup key rest

  unfoldable pub insert : ℕ → V → Table V → Table V
  insert key new [] = (key, new) ∷ []
  insert key new ((other, w) ∷ rest) =
      let others = insert key new rest in
      if other == key then (key, new) ∷ rest else (other, w) ∷ others

  unfoldable pub remove : ℕ → Table V → Table V
  remove key [] = []
  remove key ((other, w) ∷ rest) =
      let others = remove key rest in if other == key then others else (other, w) ∷ others

  abbrev pub IsMap : Table V → Type ℓ
  IsMap [] = Unit
  IsMap ((key, new) ∷ rest) = (lookup key rest ≡ none) × IsMap rest

  pub lookup-insert :
      (key other : ℕ) (new : V) (rest : Table V)
      → lookup other (insert key new rest) ≡ (if key == other then some new else lookup other rest)
  unfolding lookup insert
  lookup-insert key other new [] = refl
  lookup-insert key other new ((first, w) ∷ rest) = ground (arith, lookup-insert key other new rest)

  pub lookup-remove :
      (key other : ℕ) (rest : Table V)
      → lookup other (remove key rest) ≡ (if key == other then none else lookup other rest)
  unfolding lookup remove
  lookup-remove key other [] = ground arith
  lookup-remove key other ((first, w) ∷ rest) = ground (arith, lookup-remove key other rest)

  pub insert-IsMap : (key : ℕ) (new : V) (rest : Table V) → IsMap rest → IsMap (insert key new rest)
  unfolding insert lookup
  insert-IsMap key new [] h = (refl, tt)
  insert-IsMap key new ((other, w) ∷ rest) h =
      ground (arith, insert-IsMap key new rest h.1, lookup-insert key other new rest)

  pub remove-IsMap : (key : ℕ) (rest : Table V) → IsMap rest → IsMap (remove key rest)
  unfolding remove
  remove-IsMap key [] h = h
  remove-IsMap key ((other, w) ∷ rest) h =
      ground (arith, remove-IsMap key rest h.1, lookup-remove key other rest)
