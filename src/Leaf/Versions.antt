-- ===== src/Leaf/Versions.antt =====
-- A leaf as a list of versions of user keys: what the cells of a well-formed leaf mean.
use Prim.Native.Nat.{Ordering}
use ryu_db.Base.{ℕ, ◌^◌, ◌<◌, ◌≡◌, ◌≢◌, ◌⊎◌, inl, inr, sym, ◌∙◌, arith, List, [], ◌∷◌, Bytes, All}
use ryu_db.Base.{true, ok, Bool-cases}
use ryu_db.Bytes.Order.{compare_bytes, compare_bytes-flip, bytes_eq, bytes_eq_iff}
use ryu_db.Cell.{KvCell, new_kv_cell, KvFits, serialize_kv_cell, deserialize_kv_cell}
use ryu_db.Cell.RoundTrip.{deserialize-serialize_kv_cell}
use ryu_db.Txn.Key.{
  build_mvcc_key, extract_mvcc_key, extract-build_mvcc_key, NoNul, compare_bytes-build_mvcc_key,
  compare_bytes-build_mvcc_key_ne,
}

pub record Version : Type 0 where
  pub user : Bytes
  pub tx : ℕ
  pub value : Bytes
  pub flag : ℕ

abbrev pub version_key : Version → Bytes
version_key v = build_mvcc_key v.user v.tx

abbrev pub to_cell : Version → KvCell
to_cell v = new_kv_cell v.flag (version_key v) v.value

abbrev pub raw : Version → Bytes
raw v = serialize_kv_cell (to_cell v)

abbrev pub raw_leaf : List Version → List Bytes
raw_leaf [] = []
raw_leaf (v ∷ vs) = raw v ∷ raw_leaf vs

-- A version as the engine writes it: a user key without zero bytes, a uint64 id, a size that fits
-- 16 bits, and one of the three flags: plain, tombstone, overflow.
pub record IsVersion (v : Version) : Type 0 where
  pub no_nul : NoNul v.user
  pub id : v.tx < 2 ^ 64
  pub size : KvFits (to_cell v)
  pub flags : (v.flag ≡ 0) ⊎ (v.flag ≡ 2) ⊎ (v.flag ≡ 4)

-- Ascending order of the whole keys.
abbrev pub Before : Version → Version → Type 0
Before v w = compare_bytes (version_key v) (version_key w) ≡ Ordering.lt

abbrev pub IsSorted : List Version → Type 0
IsSorted [] = Unit
IsSorted (v ∷ vs) = All (Before v) vs × IsSorted vs

abbrev pub IsLeaf : List Version → Type 0
IsLeaf vs = All IsVersion vs × IsSorted vs

pub deserialize-raw : (v : Version) → IsVersion v → deserialize_kv_cell (raw v) ≡ ok (to_cell v)
deserialize-raw v h = deserialize-serialize_kv_cell (to_cell v) h.size

pub extract-version_key :
    (v : Version) → IsVersion v → extract_mvcc_key (version_key v) ≡ (v.user, v.tx)
extract-version_key v h = extract-build_mvcc_key v.user v.tx h.id

-- Versions of one user key are in the order of their ids.
pub Before-tx :
    (v w : Version) → IsVersion v → IsVersion w → v.user ≡ w.user → Before v w → v.tx < w.tx
Before-tx v w hv hw e b =
    let key : compare_bytes (version_key v) (build_mvcc_key v.user w.tx) ≡ Ordering.lt =
      rw e (rw e at b) in
    ground (arith, key, compare_bytes-build_mvcc_key v.user v.tx w.tx hv.id hw.id)

-- Nothing of another user key stands between two versions of one.
pub Before-between :
    (u v w : Version)
    → IsVersion u
    → IsVersion v
    → IsVersion w
    → Before u v
    → Before v w
    → u.user ≡ w.user
    → bytes_eq u.user v.user ≡ true
Before-between u v w hu hv hw a b e = elim (Bool-cases (bytes_eq u.user v.user)) [
  | inl same ↦ same
  | inr other ↦
      let ne : u.user ≢ v.user = λ p. cc (other, (bytes_eq_iff u.user v.user).1 p) in
      let first = compare_bytes-build_mvcc_key_ne u.user v.user u.tx v.tx hu.no_nul hv.no_nul ne in
      let second =
        compare_bytes-build_mvcc_key_ne v.user u.user v.tx w.tx hv.no_nul hu.no_nul
          (λ p. ne (sym p)) in
      let b' : compare_bytes (version_key v) (build_mvcc_key u.user w.tx) ≡ Ordering.lt = rw e b in
      let back = (compare_bytes-flip u.user v.user).0 (sym first ∙ a) in cc (back, sym second ∙ b')
]
