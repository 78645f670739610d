-- ===== src/Leaf/Latest.antt =====
-- FindLatest on a well-formed leaf returns the newest version that its reader may see.
use ryu_db.Base.{ℕ, ◌^◌, ◌<◌, ◌≡◌, ◌⊎◌, inl, inr, refl, ap, ◌∙◌, arith, List, [], ◌∷◌, Bytes, All}
use ryu_db.Base.{
  Bool, true, false, Option, none, some, ok, ltb, ◌==◌, if◌then◌else◌, Bool-cases, Option-cases,
}
use ryu_db.Bytes.Order.{bytes_eq}
use ryu_db.Cell.{KvCell}
use ryu_db.Txn.{TransactionManager}
use ryu_db.Txn.Key.{build_mvcc_key, extract-build_mvcc_key}
use ryu_db.Leaf.Read.{sees_commited, is_version_visible, better, find_latest_loop}
use ryu_db.Leaf.Versions.{
  Version, version_key, to_cell, raw_leaf, IsVersion, Before, IsSorted, IsLeaf,
}
use ryu_db.Leaf.Versions.{deserialize-raw, extract-version_key}

-- The reader `user` at `reader` may see the version: it is its own, or an older committed one.
abbrev pub sees : Option TransactionManager → Bytes → ℕ → Version → Bool
sees tx_mgr user reader v =
    if bytes_eq v.user user
    then (if ltb reader v.tx
        then false
        else if v.tx == reader
        then true
        else sees_commited tx_mgr v.tx)
    else false

pub visible-sees :
    (tx_mgr : Option TransactionManager) (user : Bytes) (reader : ℕ) (v : Version)
    → reader < 2 ^ 64
    → IsVersion v
    → is_version_visible (version_key v) (build_mvcc_key user reader) tx_mgr
      ≡ sees tx_mgr user reader v
unfolding is_version_visible
visible-sees tx_mgr user reader v hr hv =
    rw (extract-version_key v hv, extract-build_mvcc_key user reader hr) refl

-- The last version of the list that the reader sees.
unfoldable pub newest : Option TransactionManager → Bytes → ℕ → List Version → Option Version
newest tx_mgr user reader [] = none
newest tx_mgr user reader (v ∷ vs) = elim (newest tx_mgr user reader vs) [
  | some w ↦ some w
  | none ↦ if sees tx_mgr user reader v then some v else none
]

abbrev pub map_cell : Option Version → Option KvCell
map_cell none = none
map_cell (some v) = some (to_cell v)

module _ (tx_mgr : Option TransactionManager) (user : Bytes) (reader : ℕ)
    (hr : reader < 2 ^ 64) where
  abbrev pick : Version → Option Version → Option Version
  pick v best = if sees tx_mgr user reader v then some v else best

  better-map_cell :
      (v : Version) (best : Option Version)
      → IsVersion v
      → ((b : Version) → best ≡ some b → Before b v)
      → better (build_mvcc_key user reader) tx_mgr (to_cell v) (map_cell best)
        ≡ map_cell (pick v best)
  better-map_cell v none hv below = ground (arith, visible-sees tx_mgr user reader v hr hv)
  better-map_cell v (some b) hv below =
      ground (arith, visible-sees tx_mgr user reader v hr hv, below b refl)

  or_else : Option Version → Option Version → Option Version
  or_else none best = best
  or_else (some w) best = some w

  or_else-newest :
      (v : Version) (vs : List Version) (best : Option Version)
      → or_else (newest tx_mgr user reader vs) (pick v best)
        ≡ or_else (newest tx_mgr user reader (v ∷ vs)) best
  unfolding or_else newest
  or_else-newest v vs best = ground arith

  -- What the loop holds after the versions before `vs`: nothing, or a version below all of `vs`.
  find_latest_loop-newest :
      (vs : List Version) (best : Option Version)
      → All IsVersion vs
      → IsSorted vs
      → ((b : Version) → best ≡ some b → All (Before b) vs)
      → find_latest_loop (build_mvcc_key user reader) tx_mgr (raw_leaf vs) (map_cell best)
        ≡ ok (map_cell (or_else (newest tx_mgr user reader vs) best))
  unfolding find_latest_loop
  find_latest_loop-newest [] best hv hs hb = unfold newest or_else in refl
  find_latest_loop-newest (v ∷ vs) best hv hs hb =
      let below : (b : Version) → pick v best ≡ some b → All (Before b) vs = λ b e.
        elim (Bool-cases (sees tx_mgr user reader v)) [
          | inl seen ↦ let same : v ≡ b = ground arith in rw (← same) hs.0
          | inr unseen ↦ let same : best ≡ some b = ground arith in (hb b same).1
        ] in
      rw (deserialize-raw v hv.0, better-map_cell v best hv.0 (λ b e. (hb b e).0))
        (find_latest_loop-newest vs (pick v best) hv.1 hs.1 below
          ∙ ap (λ (o : Option Version). ok (map_cell o)) (or_else-newest v vs best))

  -- On a leaf of sorted versions FindLatest's loop ends with the newest version that its reader sees.
  pub find_latest_loop-leaf :
      (vs : List Version)
      → IsLeaf vs
      → find_latest_loop (build_mvcc_key user reader) tx_mgr (raw_leaf vs) none
        ≡ ok (map_cell (newest tx_mgr user reader vs))
  find_latest_loop-leaf vs h =
      find_latest_loop-newest vs none h.0 h.1 (λ b e. cc)
      ∙ ap (λ (o : Option Version). ok (map_cell o)) (drop_none (newest tx_mgr user reader vs))
    where
      drop_none : (o : Option Version) → or_else o none ≡ o
      drop_none none = unfold or_else in refl
      drop_none (some w) = unfold or_else in refl

-- `w` is one of the versions.
abbrev pub Has : Version → List Version → Type 0
Has w [] = ⊥
Has w (v ∷ vs) = (v ≡ w) ⊎ Has w vs

pub Has-All {κ} :
    (P : Version → Type κ) (w : Version) (vs : List Version) → All P vs → Has w vs → P w
Has-All P w [] h m = absurd m
Has-All P w (v ∷ vs) h (inl e) = rw (← e) h.0
Has-All P w (v ∷ vs) h (inr m) = Has-All P w vs h.1 m

module _ (tx_mgr : Option TransactionManager) (user : Bytes) (reader : ℕ) where
  -- What is found is a version of the leaf that the reader sees.
  pub newest-Has :
      (vs : List Version) (w : Version)
      → newest tx_mgr user reader vs ≡ some w
      → Has w vs × (sees tx_mgr user reader w ≡ true)
  unfolding newest
  newest-Has [] w e = cc
  newest-Has (v ∷ vs) w e = elim (Option-cases (newest tx_mgr user reader vs)) [
    | inl nothing ↦ ground (arith, nothing)
    | inr (u, found) ↦
        let same : u ≡ w = ground (arith, found) in
        let (member, seen) = newest-Has vs w (found ∙ ap some same) in (inr member, seen)
  ]

  -- Nothing is found only if the reader sees no version.
  pub newest-none :
      (vs : List Version)
      → newest tx_mgr user reader vs ≡ none
      → All (λ v. sees tx_mgr user reader v ≡ false) vs
  unfolding newest
  newest-none [] e = tt
  newest-none (v ∷ vs) e = elim (Option-cases (newest tx_mgr user reader vs)) [
    | inl nothing ↦ (ground (arith, nothing), newest-none vs nothing)
    | inr (u, found) ↦ absurd (ground (arith, found))
  ]
