-- ===== src/Leaf/VacuumPage.antt =====
-- vacuumLeaf and FindLatest on a whole page.
use ryu_db.Base.{
  ℕ, ◌+◌, ◌^◌, ◌≤◌, ◌<◌, ◌≡◌, inl, inr, refl, sym, ap, ◌∙◌, arith, List, [], ◌∷◌, Bytes, length,
  All,
}
use ryu_db.Base.{
  true, Option, none, some, Result, ok, err, panic, key_not_found, key_deleted, ltb, ◌==◌,
  Bool-cases,
}
use ryu_db.Page.{Page, page_type_leaf}
use ryu_db.Page.Rebuild.{cells_size, Holds, page_cells-Holds, rebuild-Holds}
use ryu_db.Cell.{is_overflow}
use ryu_db.Txn.{TransactionManager}
use ryu_db.Txn.Key.{build_mvcc_key}
use ryu_db.Leaf.Read.{sees_commited, latest_value, find_latest_in}
use ryu_db.Leaf.Clean.{vacuum_leaf}
use ryu_db.Leaf.Versions.{Version, raw_leaf, IsVersion, Before, IsSorted, IsLeaf}
use ryu_db.Leaf.Latest.{newest, map_cell, find_latest_loop-leaf}
use ryu_db.Leaf.Vacuum.{kept, dropped, vacuum_cells-kept, live, live-newest-kept}

All-kept {κ} :
    (P : Version → Type κ) (min_active : ℕ) (vs : List Version)
    → All P vs
    → All P (kept min_active vs)
unfolding kept
All-kept P min_active [] h = h
All-kept P min_active (v ∷ vs) h = elim (Bool-cases (dropped min_active v vs)) [
  | inl gone ↦ rw gone (All-kept P min_active vs h.1)
  | inr stays ↦ rw stays (h.0, All-kept P min_active vs h.1)
]

kept-IsSorted : (min_active : ℕ) (vs : List Version) → IsSorted vs → IsSorted (kept min_active vs)
unfolding kept
kept-IsSorted min_active [] h = h
kept-IsSorted min_active (v ∷ vs) h = elim (Bool-cases (dropped min_active v vs)) [
  | inl gone ↦ rw gone (kept-IsSorted min_active vs h.1)
  | inr stays ↦ rw stays (All-kept (Before v) min_active vs h.0, kept-IsSorted min_active vs h.1)
]

kept-IsLeaf : (min_active : ℕ) (vs : List Version) → IsLeaf vs → IsLeaf (kept min_active vs)
kept-IsLeaf min_active vs h =
    (All-kept IsVersion min_active vs h.0, kept-IsSorted min_active vs h.1)

-- Nothing grows, and where nothing went all is left.
kept_smaller :
    (min_active : ℕ) (vs : List Version)
    → (cells_size (raw_leaf (kept min_active vs)) ≤ cells_size (raw_leaf vs))
      × (length (kept min_active vs) ≤ length vs)
      × (length (kept min_active vs) ≡ length vs → kept min_active vs ≡ vs)
unfolding kept
kept_smaller min_active [] = (omega arith, omega arith, λ e. refl)
kept_smaller min_active (v ∷ vs) =
    let (size, count, same) = kept_smaller min_active vs in
    (ground arith, ground arith, λ e. ground (arith, same))

-- On a slotted leaf of sorted versions vacuumLeaf succeeds, and leaves a slotted leaf of sorted
-- versions, those that its rule keeps. No user key of a version has a zero byte.
pub vacuum_leaf-Holds :
    (min_active : ℕ) (leaf : Page) (vs : List Version)
    → Holds leaf (raw_leaf vs)
    → IsLeaf vs
    → (q : Page) × (freed : List Bytes) × (vacuum_leaf min_active leaf ≡ ok (q, freed))
      × Holds q (raw_leaf (kept min_active vs))
      × IsLeaf (kept min_active vs)
unfolding vacuum_leaf
vacuum_leaf-Holds min_active leaf vs holds h =
    let (done, runs, cells, count) = vacuum_cells-kept min_active vs h.0 in
    let (size, fewer, same) = kept_smaller min_active vs in
    let room : 32 + cells_size (raw_leaf (kept min_active vs)) ≤ 4096 =
      omega (arith, holds.used, holds.is_page.room) in
    let (q, rebuilt, q_holds, _, _, _) =
      rebuild-Holds page_type_leaf leaf (inl refl) holds.is_page.size
        (raw_leaf (kept min_active vs)) room in
    elim (Bool-cases (ltb 0 done.cleaned_count)) [
      | inl some_gone ↦ (
        q,
        done.freed,
        rw (page_cells-Holds leaf (raw_leaf vs) holds, runs, some_gone, cells, rebuilt) refl,
        q_holds,
        kept-IsLeaf min_active vs h,
      )
      | inr none_gone ↦
          let all_kept : kept min_active vs ≡ vs = same (ground arith) in
          (
            leaf,
            done.freed,
            rw (page_cells-Holds leaf (raw_leaf vs) holds, runs, none_gone) refl,
            rw all_kept holds,
            kept-IsLeaf min_active vs h,
          )
    ]

-- FindLatest on a slotted leaf of sorted versions answers by the newest version that its reader sees.
pub find_latest_in-Holds :
    (read_chain : Bytes → Result Bytes) (tx_mgr : Option TransactionManager) (user : Bytes)
    (reader : ℕ) (leaf : Page) (vs : List Version)
    → reader < 2 ^ 64
    → Holds leaf (raw_leaf vs)
    → IsLeaf vs
    → find_latest_in read_chain (build_mvcc_key user reader) tx_mgr leaf
      ≡ latest_value read_chain (map_cell (newest tx_mgr user reader vs))
unfolding find_latest_in
find_latest_in-Holds read_chain tx_mgr user reader leaf vs hr holds h =
    rw (page_cells-Holds leaf (raw_leaf vs) holds, find_latest_loop-leaf tx_mgr user reader hr vs h)
      refl

-- What a read returns, where a key that is deleted is as one that was never there.
abbrev pub value_of : Result Bytes → Result (Option Bytes)
value_of (ok b) = ok (some b)
value_of (err key_not_found) = ok none
value_of (err key_deleted) = ok none
value_of (err e) = err e
value_of panic = panic

abbrev read_live : (Bytes → Result Bytes) → Option (Bytes × ℕ) → Result (Option Bytes)
read_live read_chain none = ok none
read_live read_chain (some (value, flag)) =
    value_of (latest_value read_chain (some (record { key = []; value = value; flag = flag })))

value_of-latest_value :
    (read_chain : Bytes → Result Bytes) (o : Option Version)
    → value_of (latest_value read_chain (map_cell o)) ≡ read_live read_chain (live o)
value_of-latest_value read_chain none = refl
value_of-latest_value read_chain (some v) = elim (Bool-cases (v.flag == 2)) [
  | inl tombstone ↦ rw tombstone refl
  | inr plain ↦ unfold is_overflow in ground (arith, plain)
]

-- Cleaning a slotted leaf of sorted versions of user keys without a zero byte does not change what
-- FindLatest returns to any reader whose id has 64 bits and is not below the lowest active transaction,
-- but for the text of the error about a key that is not there, if every version below that bound is
-- committed, and the overflow chains are read in the same way.
pub vacuum_leaf_keeps_reads :
    (read_chain : Bytes → Result Bytes) (tx_mgr : Option TransactionManager) (user : Bytes)
    (reader min_active : ℕ) (leaf : Page) (vs : List Version)
    → reader < 2 ^ 64
    → min_active ≤ reader
    → Holds leaf (raw_leaf vs)
    → IsLeaf vs
    → All (λ v. v.tx < min_active → sees_commited tx_mgr v.tx ≡ true) vs
    → (q : Page) × (freed : List Bytes) × (vacuum_leaf min_active leaf ≡ ok (q, freed))
      × (value_of (find_latest_in read_chain (build_mvcc_key user reader) tx_mgr q)
          ≡ value_of (find_latest_in read_chain (build_mvcc_key user reader) tx_mgr leaf))
vacuum_leaf_keeps_reads read_chain tx_mgr user reader min_active leaf vs hr late holds h settled =
    let (q, freed, cleaned, q_holds, q_leaf) = vacuum_leaf-Holds min_active leaf vs holds h in
    let after =
      find_latest_in-Holds read_chain tx_mgr user reader q (kept min_active vs) hr q_holds q_leaf in
    let before = find_latest_in-Holds read_chain tx_mgr user reader leaf vs hr holds h in
    (
      q,
      freed,
      cleaned,
      ap value_of after
          ∙ value_of-latest_value read_chain (newest tx_mgr user reader (kept min_active vs))
          ∙ ap (read_live read_chain)
              (live-newest-kept tx_mgr user reader min_active late vs h settled)
          ∙ sym (value_of-latest_value read_chain (newest tx_mgr user reader vs))
          ∙ ap value_of (sym before),
    )
