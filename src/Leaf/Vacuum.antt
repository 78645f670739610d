-- ===== src/Leaf/Vacuum.antt =====
-- vacuumLeaf keeps what every reader from the lowest active transaction on reads.
use ryu_db.Base.{
  ℕ, ◌+◌, ◌≤◌, ◌<◌, ◌≡◌, ◌≢◌, ◌⊎◌, inl, inr, refl, sym, ap, ◌∙◌, arith, List, [], ◌∷◌, Bytes,
  length, All,
}
use ryu_db.Base.{
  Bool, true, false, ◌&&◌, Option, none, some, ok, ltb, ◌==◌, if◌then◌else◌, Bool-cases,
  Option-cases,
}
use ryu_db.Bytes.Order.{bytes_eq, bytes_eq_iff}
use ryu_db.Cell.{is_deleted}
use ryu_db.Txn.{TransactionManager}
use ryu_db.Leaf.Read.{sees_commited}
use ryu_db.Leaf.Clean.{Vacuumed, old_version_at, clean_cell, vacuum_cells}
use ryu_db.Leaf.Versions.{Version, to_cell, raw, raw_leaf, IsVersion, Before, IsLeaf}
use ryu_db.Leaf.Versions.{deserialize-raw, extract-version_key, Before-tx, Before-between}
use ryu_db.Leaf.Latest.{sees, newest, Has-All, newest-Has}

-- vacuumLeaf on versions.
abbrev pub old_at : ℕ → Version → List Version → Bool
old_at min_active v [] = false
old_at min_active v (w ∷ _) = if bytes_eq v.user w.user then ltb w.tx min_active else false

abbrev pub dropped : ℕ → Version → List Version → Bool
dropped min_active v vs =
    if old_at min_active v vs then true else (v.flag == 2) && ltb v.tx min_active

unfoldable pub kept : ℕ → List Version → List Version
kept min_active [] = []
kept min_active (v ∷ vs) =
    let rest = kept min_active vs in if dropped min_active v vs then rest else v ∷ rest

is_deleted-to_cell : (v : Version) → IsVersion v → is_deleted (to_cell v) ≡ (v.flag == 2)
unfolding is_deleted
is_deleted-to_cell v h = flag_cases v.flag h.flags
  where
    flag_cases :
        (f : ℕ)
        → (f ≡ 0) ⊎ (f ≡ 2) ⊎ (f ≡ 4)
        → is_deleted (record (to_cell v) { flag = f }) ≡ (f == 2)
    flag_cases f (inl e) = rw e refl
    flag_cases f (inr (inl e)) = rw e refl
    flag_cases f (inr (inr e)) = rw e refl

old_version_at-old_at :
    (min_active : ℕ) (v : Version) (vs : List Version)
    → IsVersion v
    → All IsVersion vs
    → old_version_at min_active (to_cell v) (raw_leaf vs) ≡ ok (old_at min_active v vs)
unfolding old_version_at
old_version_at-old_at min_active v [] hv hs = refl
old_version_at-old_at min_active v (w ∷ ws) hv hs =
    rw (deserialize-raw w hs.0, extract-version_key v hv, extract-version_key w hs.0) refl

-- On raw cells the loop keeps the cells of the kept versions, and counts the others.
pub vacuum_cells-kept :
    (min_active : ℕ) (vs : List Version)
    → All IsVersion vs
    → (done : Vacuumed) × (vacuum_cells min_active (raw_leaf vs) ≡ ok done)
      × (done.cells_to_keep ≡ raw_leaf (kept min_active vs))
      × (done.cleaned_count + length (kept min_active vs) ≡ length vs)
unfolding vacuum_cells kept
vacuum_cells-kept min_active [] h =
    (record { cells_to_keep = []; freed = []; cleaned_count = 0 }, refl, refl, omega arith)
vacuum_cells-kept min_active (v ∷ vs) h =
    let (done, runs, cells, count) = vacuum_cells-kept min_active vs h.1 in
    let gone = dropped min_active v vs in
    (
      clean_cell gone (raw v) (to_cell v) done,
      rw
          (
            deserialize-raw v h.0,
            old_version_at-old_at min_active v vs h.0 h.1,
            runs,
            is_deleted-to_cell v h.0,
            extract-version_key v h.0,
          )
          refl,
      ground arith,
      ground arith,
    )

-- What a reader gets: nothing from a tombstone.
abbrev pub live : Option Version → Option (Bytes × ℕ)
live none = none
live (some v) = if v.flag == 2 then none else some (v.value, v.flag)

module _ (tx_mgr : Option TransactionManager) (user : Bytes) (reader min_active : ℕ)
    (late : min_active ≤ reader) where
  -- Below the lowest active transaction every version is committed.
  abbrev Settled : Version → Type 0
  Settled v = v.tx < min_active → sees_commited tx_mgr v.tx ≡ true

  -- An overriding version below the bound is one that the reader sees.
  old_at-newest :
      (v : Version) (vs : List Version)
      → All Settled vs
      → sees tx_mgr user reader v ≡ true
      → old_at min_active v vs ≡ true
      → newest tx_mgr user reader vs ≢ none
  unfolding newest
  old_at-newest v [] hc seen old e = cc
  old_at-newest v (w ∷ ws) hc seen old e =
      ground (
        arith,
        hc.0,
        bytes_eq_iff v.user user,
        bytes_eq_iff v.user w.user,
        bytes_eq_iff w.user user,
      )

  -- Under a version below the bound the one in front is old.
  newest-old_at :
      (v : Version) (vs : List Version) (b : Version)
      → IsLeaf (v ∷ vs)
      → sees tx_mgr user reader v ≡ true
      → newest tx_mgr user reader vs ≡ some b
      → b.tx < min_active
      → old_at min_active v vs ≡ true
  newest-old_at v [] b h seen e small = unfold newest in cc
  newest-old_at v (w ∷ ws) b h seen e small =
      let (member, b_seen) = newest-Has tx_mgr user reader (w ∷ ws) b e in
      let same_user : v.user ≡ b.user =
        ground (arith, bytes_eq_iff v.user user, bytes_eq_iff b.user user) in
      elim member [
        | inl here ↦ ground (arith, here, bytes_eq_iff v.user b.user)
        | inr later ↦
            let hb = Has-All IsVersion b ws h.0.1.1 later in
            let w_b = Has-All (Before w) b ws h.1.1.0 later in
            let between = Before-between v w b h.0.0 h.0.1.0 hb h.1.0.0 w_b same_user in
            let w_user : w.user ≡ b.user =
              sym ((bytes_eq_iff v.user w.user).0 between) ∙ same_user in
            let w_tx = Before-tx w b h.0.1.0 hb w_user w_b in ground arith
      ]

  -- The reader finds the same version after the cleaning, or a tombstone is gone with all that it
  -- covered.
  abbrev Outcome : List Version → Type 0
  Outcome vs =
      (newest tx_mgr user reader (kept min_active vs) ≡ newest tx_mgr user reader vs)
      ⊎ ((newest tx_mgr user reader (kept min_active vs) ≡ none)
          × (b : Version) × (newest tx_mgr user reader vs ≡ some b)
          × (b.flag ≡ 2)
          × (b.tx < min_active))

  newest-kept_cons :
      (v : Version) (vs : List Version)
      → IsLeaf (v ∷ vs)
      → All Settled (v ∷ vs)
      → Outcome vs
      → Outcome (v ∷ vs)
  unfolding newest kept
  newest-kept_cons v vs h hc (inl same) = elim (Option-cases (newest tx_mgr user reader vs)) [
    | inl nothing ↦ elim (Bool-cases (dropped min_active v vs)) [
      | inl gone ↦ elim (Bool-cases (sees tx_mgr user reader v)) [
        | inl seen ↦ elim (Bool-cases (old_at min_active v vs)) [
          | inl old ↦ absurd (old_at-newest v vs hc.1 seen old nothing)
          | inr young ↦ inr (
            ground (arith, nothing, same),
            v,
            ground (arith, nothing),
            ground arith,
            ground arith,
          )
        ]
        | inr unseen ↦ inl (ground (arith, nothing, same))
      ]
      | inr stays ↦ inl (ground (arith, nothing, same))
    ]
    | inr (b, found) ↦ inl (ground (arith, found, same))
  ]
  newest-kept_cons v vs h hc (inr (nothing, b, found, tombstone, small)) =
      elim (Bool-cases (sees tx_mgr user reader v)) [
        | inl seen ↦
            let old = newest-old_at v vs b h seen found small in
            inr (ground (arith, nothing, old), b, ground (arith, found), tombstone, small)
        | inr unseen ↦ inr (ground (arith, nothing), b, ground (arith, found), tombstone, small)
      ]

  newest-kept : (vs : List Version) → IsLeaf vs → All Settled vs → Outcome vs
  newest-kept [] h hc = inl (unfold newest kept in refl)
  newest-kept (v ∷ vs) h hc = newest-kept_cons v vs h hc (newest-kept vs (h.0.1, h.1.1) hc.1)

  pub live-newest-kept :
      (vs : List Version)
      → IsLeaf vs
      → All Settled vs
      → live (newest tx_mgr user reader (kept min_active vs)) ≡ live (newest tx_mgr user reader vs)
  live-newest-kept vs h hc = elim (newest-kept vs h hc) [
    | inl same ↦ ap live same
    | inr (nothing, b, found, tombstone, small) ↦ ground (arith, nothing, found, tombstone)
  ]
