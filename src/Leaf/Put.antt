-- ===== src/Leaf/Put.antt =====
-- Writing a version into a sorted list of versions, and what readers see of it.
use Prim.Native.Nat.{Ordering}
use ryu_db.Base.{ℕ, ◌≡◌, ◌⊎◌, inl, inr, refl, sym, ap, ◌∙◌, arith, List, [], ◌∷◌, Bytes, All}
use ryu_db.Base.{true, false, Option, none, some, Bool-cases}
use ryu_db.Bytes.Order.{
  compare_bytes, compare_bytes-eq, compare_bytes-flip, compare_bytes_trans, bytes_eq, bytes_eq_iff,
}
use ryu_db.Txn.{TransactionManager}
use ryu_db.Txn.Key.{extract_mvcc_key}
use mathlib.Core.Path.{subst}
use ryu_db.Leaf.Versions.{
  Version, version_key, IsVersion, Before, Before-tx, IsSorted, IsLeaf, extract-version_key,
}
use ryu_db.Leaf.Latest.{sees, newest}

-- The version in its place, instead of one with the same key.
unfoldable pub put : Version → List Version → List Version
put new [] = new ∷ []
put new (v ∷ vs) = elim (compare_bytes (version_key new) (version_key v)) [
  | Ordering.lt ↦ new ∷ v ∷ vs
  | Ordering.eq ↦ new ∷ vs
  | Ordering.gt ↦ v ∷ put new vs
]

pub Before-All :
    (u v : Version) (vs : List Version) → Before u v → All (Before v) vs → All (Before u) vs
Before-All u v [] b h = tt
Before-All u v (w ∷ vs) b h = (
  compare_bytes_trans (version_key u) (version_key v) (version_key w) b h.0,
  Before-All u v vs b h.1,
)

pub All-put {κ} :
    (P : Version → Type κ) (new : Version) (vs : List Version)
    → P new
    → All P vs
    → All P (put new vs)
unfolding put
All-put P new [] pn h = (pn, tt)
All-put P new (v ∷ vs) pn h =
    elim (compare_bytes (version_key new) (version_key v))
      as (λ o. All P (elim o [
        | Ordering.lt ↦ new ∷ v ∷ vs
        | Ordering.eq ↦ new ∷ vs
        | Ordering.gt ↦ v ∷ put new vs
      ])) [
        | Ordering.lt ↦ (pn, h)
        | Ordering.eq ↦ (pn, h.1)
        | Ordering.gt ↦ (h.0, All-put P new vs pn h.1)
      ]

pub Ordering-cases : (o : Ordering) → (o ≡ Ordering.lt) ⊎ (o ≡ Ordering.eq) ⊎ (o ≡ Ordering.gt)
Ordering-cases Ordering.lt = inl refl
Ordering-cases Ordering.eq = inr (inl refl)
Ordering-cases Ordering.gt = inr (inr refl)

module _ (new v : Version) (vs : List Version) where
  pub put-lt : Before new v → put new (v ∷ vs) ≡ new ∷ v ∷ vs
  unfolding put
  put-lt b = rw (b, put) refl

  pub put-eq :
      compare_bytes (version_key new) (version_key v) ≡ Ordering.eq → put new (v ∷ vs) ≡ new ∷ vs
  unfolding put
  put-eq b = rw (b, put) refl

  pub put-gt :
      compare_bytes (version_key new) (version_key v) ≡ Ordering.gt
      → put new (v ∷ vs) ≡ v ∷ put new vs
  unfolding put
  put-gt b = rw (b, put) refl

pub put-IsSorted : (new : Version) (vs : List Version) → IsSorted vs → IsSorted (put new vs)
put-IsSorted new [] h = unfold put in (tt, tt)
put-IsSorted new (v ∷ vs) h =
    elim (Ordering-cases (compare_bytes (version_key new) (version_key v))) [
      | inl below ↦ rw (put-lt new v vs below) ((below, Before-All new v vs below h.0), h)
      | inr (inl same) ↦
          let key : version_key v ≡ version_key new =
            sym (compare_bytes-eq (version_key new) (version_key v) same) in
          rw (put-eq new v vs same)
            (subst (λ k. All (λ w. compare_bytes k (version_key w) ≡ Ordering.lt) vs) key h.0, h.1)
      | inr (inr above) ↦ rw (put-gt new v vs above) (
        All-put (Before v) new vs ((compare_bytes-flip (version_key v) (version_key new)).1 above)
            h.0,
        put-IsSorted new vs h.1,
      )
    ]

pub put-IsLeaf :
    (new : Version) (vs : List Version) → IsVersion new → IsLeaf vs → IsLeaf (put new vs)
put-IsLeaf new vs hn h = (All-put IsVersion new vs hn h.0, put-IsSorted new vs h.1)

-- Equal keys are of one user key and one transaction.
same_version :
    (v w : Version)
    → IsVersion v
    → IsVersion w
    → version_key v ≡ version_key w
    → (v.user ≡ w.user) × (v.tx ≡ w.tx)
same_version v w hv hw e =
    let both : ◌≡◌ {A = Bytes × ℕ} (v.user, v.tx) (w.user, w.tx) =
      sym (extract-version_key v hv) ∙ ap extract_mvcc_key e ∙ extract-version_key w hw in
    ground arith

module _ (tx_mgr : Option TransactionManager) (user : Bytes) (reader : ℕ) where
  -- A reader that does not see the new version reads what it read before.
  pub newest-put_unseen :
      (new : Version) (vs : List Version)
      → IsVersion new
      → All IsVersion vs
      → sees tx_mgr user reader new ≡ false
      → newest tx_mgr user reader (put new vs) ≡ newest tx_mgr user reader vs
  unfolding newest
  newest-put_unseen new [] hn hv unseen = unfold put in rw unseen refl
  newest-put_unseen new (v ∷ vs) hn hv unseen =
      elim (Ordering-cases (compare_bytes (version_key new) (version_key v))) [
        | inl below ↦ rw (put-lt new v vs below) (ground (arith, unseen))
        | inr (inl same) ↦
            let (users, ids) =
              same_version new v hn hv.0
                (compare_bytes-eq (version_key new) (version_key v) same) in
            let v_unseen : sees tx_mgr user reader v ≡ false = rw (users, ids) at unseen in
            rw (put-eq new v vs same) (ground (arith, unseen, v_unseen))
        | inr (inr above) ↦
            let rest = newest-put_unseen new vs hn hv.1 unseen in
            rw (put-gt new v vs above) (ground (arith, rest))
      ]

module _ (tx_mgr : Option TransactionManager) (new : Version) (hn : IsVersion new) where
  -- What follows a version is of another user key, or in the future of its transaction.
  later_unseen :
      (vs : List Version)
      → All IsVersion vs
      → All (Before new) vs
      → newest tx_mgr new.user new.tx vs ≡ none
  unfolding newest
  later_unseen [] hv b = refl
  later_unseen (v ∷ vs) hv b =
      let unseen : sees tx_mgr new.user new.tx v ≡ false =
        elim (Bool-cases (bytes_eq v.user new.user)) [
          | inl same ↦
              let later =
                Before-tx new v hn hv.0 (sym ((bytes_eq_iff v.user new.user).0 same)) b.0 in
              ground arith
          | inr other ↦ rw other refl
        ] in
      rw (later_unseen vs hv.1 b.1, unseen) refl

  own_seen : sees tx_mgr new.user new.tx new ≡ true
  own_seen = ground (arith, (bytes_eq_iff new.user new.user).1 refl)

  newest-own :
      (vs : List Version)
      → All IsVersion vs
      → All (Before new) vs
      → newest tx_mgr new.user new.tx (new ∷ vs) ≡ some new
  unfolding newest
  newest-own vs hv b = rw (later_unseen vs hv b, own_seen) refl

  -- A transaction reads its own write.
  pub newest-put_own :
      (vs : List Version) → IsLeaf vs → newest tx_mgr new.user new.tx (put new vs) ≡ some new
  unfolding newest
  newest-put_own [] h = unfold put in newest-own [] tt tt
  newest-put_own (v ∷ vs) h =
      elim (Ordering-cases (compare_bytes (version_key new) (version_key v))) [
        | inl below ↦
            rw (put-lt new v vs below)
              (newest-own (v ∷ vs) h.0 (below, Before-All new v vs below h.1.0))
        | inr (inl same) ↦
            let sorted = rw (put-eq new v vs same) at (put-IsSorted new (v ∷ vs) h.1) in
            rw (put-eq new v vs same) (newest-own vs h.0.1 sorted.0)
        | inr (inr above) ↦
            let rest = newest-put_own vs (h.0.1, h.1.1) in
            rw (put-gt new v vs above) (ground (arith, rest))
      ]
