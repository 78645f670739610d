-- ===== src/Tree/Moved.antt =====
-- A value that moves to overflow pages, and the version that its leaf then holds.
use Prim.Native.Nat.{Ordering}
use ryu_db.Base.{
  ℕ, u32, ◌+◌, ◌^◌, ◌<◌, ◌≡◌, ◌≢◌, refl, ap, arith, ltb, true, false, Bool-cases, inl, inr, Option,
  none, some, List, [], ◌∷◌, ◌||◌, Bytes, length, length-append, ◌==◌, ==_iff, if◌then◌else◌,
}
use ryu_db.Base.State.{Ends, Ends-and_then, ended}
use ryu_db.Bytes.Order.{compare_bytes}
use ryu_db.Bytes.Binary.{le_bytes, length-le_bytes}
use ryu_db.Cell.RoundTrip.{length-serialize_kv_cell}
use ryu_db.Page.{Page}
use ryu_db.Page.Rebuild.{cells_size}
use ryu_db.Txn.{TransactionManager}
use ryu_db.Leaf.Versions.{Version, IsVersion, raw, raw_leaf, to_cell, version_key}
use ryu_db.Leaf.Put.{put}
use ryu_db.Leaf.Scan.{has_conflict, conflict_on}
use ryu_db.Buffer.{BufferManager}
use ryu_db.Buffer.View.{view}
use ryu_db.Buffer.Pins.{count, IsUsing}
use ryu_db.Tree.FreeStack.{FreeStack}
use ryu_db.Tree.Allocate.{Idle}
use ryu_db.Tree.CreateChain.{EndsAt}
use ryu_db.Tree.KeepValue.{Keeps, create_overflow_chain-Keeps}
use ryu_db.Tree.Overflow.{create_overflow_chain}
use ryu_db.Tree.ReadChain.{metadata_of}
use ryu_db.Tree.Ops.{move_value}

-- The version as the leaf holds it: the metadata of its chain, and the flag of a value in one.
abbrev pub moved : ℕ → Version → Version
moved first new = record new { value = metadata_of first new.value; flag = 4 }

length-metadata : (first : ℕ) (value : Bytes) → length (metadata_of first value) ≡ 8
length-metadata first value =
    omega
      (arith, length-append (le_bytes 4 first) (le_bytes 4 (u32 (length value))), length-le_bytes)

pub moved-IsVersion :
    (first : ℕ) (new : Version) → IsVersion (moved 0 new) → IsVersion (moved first new)
moved-IsVersion first new h = record {
  no_nul = h.no_nul;
  id = h.id;
  size = omega (arith, h.size, length-metadata first new.value, length-metadata 0 new.value);
  flags = inr (inr refl);
}

pub has_conflict-moved :
    (tx_mgr : Option TransactionManager) (first : ℕ) (new : Version) (vs : List Version)
    → has_conflict tx_mgr (moved first new) vs ≡ has_conflict tx_mgr new vs
has_conflict-moved tx_mgr first new [] = refl
has_conflict-moved tx_mgr first new (v ∷ vs) =
    ap (λ t. conflict_on tx_mgr new v || t) (has_conflict-moved tx_mgr first new vs)

size_moved :
    (first : ℕ) (new : Version) → length (raw (moved first new)) ≡ length (raw (moved 0 new))
size_moved first new = omega (
  arith,
  length-serialize_kv_cell (to_cell (moved first new)),
  length-serialize_kv_cell (to_cell (moved 0 new)),
  length-metadata first new.value,
  length-metadata 0 new.value,
)

-- How much room the leaf needs does not depend on where the chain begins.
pub cells_size-moved :
    (first : ℕ) (new : Version) (vs : List Version)
    → cells_size (raw_leaf (put (moved first new) vs))
      ≡ cells_size (raw_leaf (put (moved 0 new) vs))
unfolding put
cells_size-moved first new [] = omega (arith, size_moved first new)
cells_size-moved first new (v ∷ vs) =
    elim (compare_bytes (version_key new) (version_key v))
      as (λ o.
        cells_size (
          raw_leaf (elim o [
            | Ordering.lt ↦ moved first new ∷ v ∷ vs
            | Ordering.eq ↦ moved first new ∷ vs
            | Ordering.gt ↦ v ∷ put (moved first new) vs
          ]))
        ≡ cells_size (
            raw_leaf (elim o [
              | Ordering.lt ↦ moved 0 new ∷ v ∷ vs
              | Ordering.eq ↦ moved 0 new ∷ vs
              | Ordering.gt ↦ v ∷ put (moved 0 new) vs
            ]))) [
              | Ordering.lt ↦ omega (arith, size_moved first new)
              | Ordering.eq ↦ omega (arith, size_moved first new)
              | Ordering.gt ↦ omega (arith, cells_size-moved first new vs)
            ]

-- The value moves to a chain.
pub move_value-Keeps :
    (limit root end : ℕ) (base : List ℕ) (value : Bytes) (ids : List ℕ) (b : BufferManager)
    → IsUsing limit base b
    → 2 + length base < limit
    → count 0 base ≡ 0
    → Idle base ids
    → FreeStack (view b) root ids
    → EndsAt end (view b)
    → end + length value < 2 ^ 32
    → 1024 < length value
    → Ends
        (λ (m : Bytes × ℕ) b'. Keeps limit root base value ids b m.0 b' × (m.1 ≡ 4))
        (move_value value 0 b)
move_value-Keeps limit root end base value ids b h room real idle st ends small long =
    let test : ltb 1024 (length value) ≡ true = ground (arith, long) in
    rw test (
      Ends-and_then (create_overflow_chain value b) _
        (create_overflow_chain-Keeps limit root end base value ids b h room real idle st ends small)
        λ metadata b' k. ended (metadata, 4) b' (k, refl))

-- The pages that are neither the meta page nor on the stack of free pages.
abbrev pub kept_view : List ℕ → BufferManager → ℕ → Option Page
kept_view ids b j = if j == 0 then none else if count j ids == 0 then view b j else none

pub kept_view-some :
    (ids : List ℕ) (b : BufferManager) (j : ℕ) (p : Page)
    → kept_view ids b j ≡ some p
    → (j ≢ 0) × (count j ids ≡ 0) × (view b j ≡ some p)
kept_view-some ids b j p e = elim (Bool-cases (j == 0)) [
  | inl meta ↦ absurd (cc (rw meta at e))
  | inr real ↦ elim (Bool-cases (count j ids == 0)) [
    | inl off ↦ (ground (arith, real), (==_iff _ _).0 off, rw (real, off) at e)
    | inr on ↦ absurd (cc (rw (real, on) at e))
  ]
]

pub kept_view-here :
    (ids : List ℕ) (b : BufferManager) (j : ℕ) (p : Page)
    → j ≢ 0
    → count j ids ≡ 0
    → view b j ≡ some p
    → kept_view ids b j ≡ some p
kept_view-here ids b j p real off shown =
    let not_meta : (j == 0) ≡ false = ground (arith, real) in rw (not_meta, off) shown
