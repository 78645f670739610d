-- ===== src/Leaf/Scan.antt =====
-- The scan of upsertCell and its sort, on a leaf of sorted versions.
use Prim.Native.Nat.{Ordering}
use mathlib.Core.List.{append-nil, append_assoc}
use ryu_db.Base.{
  ◌+◌, ◌≡◌, inl, inr, refl, sym, ap, ◌∙◌, arith, List, [], ◌∷◌, ◌++◌, Bytes, length, All,
  All-append,
}
use ryu_db.Base.{Bool, true, false, ◌||◌, Option, ok, if◌then◌else◌, Bool-cases}
use ryu_db.Bytes.Order.{
  compare_bytes, compare_bytes-eq, compare_bytes_refl, compare_bytes-flip, bytes_eq, bytes_eq_iff,
  bytes_lt,
}
use ryu_db.Page.Rebuild.{cells_size}
use ryu_db.Txn.{TransactionManager}
use ryu_db.Leaf.Versions.{
  Version, version_key, to_cell, raw, raw_leaf, IsVersion, Before, IsSorted, IsLeaf,
  extract-version_key, deserialize-raw,
}
use ryu_db.Leaf.Put.{put, put-lt, put-eq, put-gt, put-IsSorted, All-put, Before-All, Ordering-cases}
use ryu_db.Leaf.Write.{
  conflicts_with, is_conflict, Scan, scanned, conflict, keep_cell, scan_loop, finish_scan, scan,
}
use ryu_db.Leaf.Write.{Keyed, insert_keyed, sort_keyed, key_all, unkey, sort_cells}

-- The writer of `new` may not pass the version `v`.
abbrev pub conflict_on : Option TransactionManager → Version → Version → Bool
conflict_on tx_mgr new v =
    if bytes_eq v.user new.user then conflicts_with tx_mgr new.tx v.tx else false

abbrev pub has_conflict : Option TransactionManager → Version → List Version → Bool
has_conflict tx_mgr new [] = false
has_conflict tx_mgr new (v ∷ vs) = conflict_on tx_mgr new v || has_conflict tx_mgr new vs

abbrev has_key : Version → List Version → Bool
has_key new [] = false
has_key new (v ∷ vs) = bytes_eq (version_key v) (version_key new) || has_key new vs

abbrev swap : Version → List Version → List Version
swap new [] = []
swap new (v ∷ vs) = (if bytes_eq (version_key v) (version_key new) then new else v) ∷ swap new vs

is_conflict-conflict_on :
    (tx_mgr : Option TransactionManager) (new v : Version)
    → IsVersion new
    → IsVersion v
    → is_conflict tx_mgr (version_key new) (version_key v) ≡ conflict_on tx_mgr new v
unfolding is_conflict
is_conflict-conflict_on tx_mgr new v hn hv =
    rw (extract-version_key new hn, extract-version_key v hv) refl

abbrev swap_one : Version → Version → Version
swap_one new v = if bytes_eq (version_key v) (version_key new) then new else v

cells-keep_cell :
    (new v : Version) (s : Scan) (rest : List Bytes)
    → (keep_cell (version_key new) (raw new) (raw v) (to_cell v) s).cells ++ rest
      ≡ s.cells ++ (raw (swap_one new v) ∷ rest)
cells-keep_cell new v s rest = elim (Bool-cases (bytes_eq (version_key v) (version_key new))) [
  | inl same ↦ rw (same, append_assoc) refl
  | inr other ↦ rw (other, append_assoc) refl
]

module _ (tx_mgr : Option TransactionManager) (new : Version) (hn : IsVersion new) where
  scan_loop-conflict :
      (vs : List Version) (s : Scan)
      → All IsVersion vs
      → has_conflict tx_mgr new vs ≡ true
      → (freed : List Bytes) × (scan_loop tx_mgr (version_key new) (raw new) (raw_leaf vs) s
          ≡ conflict freed)
  unfolding scan_loop
  scan_loop-conflict [] s hv e = cc
  scan_loop-conflict (v ∷ vs) s hv e = elim (Bool-cases (conflict_on tx_mgr new v)) [
    | inl here ↦ (
      s.freed,
      rw (deserialize-raw v hv.0, is_conflict-conflict_on tx_mgr new v hn hv.0, here) refl,
    )
    | inr not_here ↦
        let later : has_conflict tx_mgr new vs ≡ true = ground (arith, not_here) in
        let (freed, found) =
          scan_loop-conflict vs (keep_cell (version_key new) (raw new) (raw v) (to_cell v) s) hv.1
            later in
        (
          freed,
          rw (deserialize-raw v hv.0, is_conflict-conflict_on tx_mgr new v hn hv.0, not_here) found,
        )
  ]

  scan_loop-scanned :
      (vs : List Version) (s : Scan)
      → All IsVersion vs
      → has_conflict tx_mgr new vs ≡ false
      → (r : Scan) × (scan_loop tx_mgr (version_key new) (raw new) (raw_leaf vs) s ≡ scanned r)
        × (r.cells ≡ s.cells ++ raw_leaf (swap new vs))
        × (r.key_exists ≡ (s.key_exists || has_key new vs))
        × (r.total_space ≡ s.total_space + cells_size (raw_leaf (swap new vs)))
  unfolding scan_loop
  scan_loop-scanned [] s hv e = (s, refl, sym (append-nil s.cells), ground arith, omega arith)
  scan_loop-scanned (v ∷ vs) s hv e =
      let not_here : conflict_on tx_mgr new v ≡ false = ground arith in
      let later : has_conflict tx_mgr new vs ≡ false = ground arith in
      let s' = keep_cell (version_key new) (raw new) (raw v) (to_cell v) s in
      let (r, runs, cells, found, total) = scan_loop-scanned vs s' hv.1 later in
      (
        r,
        rw (deserialize-raw v hv.0, is_conflict-conflict_on tx_mgr new v hn hv.0, not_here) runs,
        cells ∙ cells-keep_cell new v s (raw_leaf (swap new vs)),
        ground (arith, found),
        ground (arith, total),
      )

-- No key after a version that is below all of them.
has_key-Before :
    (new v : Version) (vs : List Version)
    → version_key v ≡ version_key new
    → All (Before v) vs
    → has_key new vs ≡ false
has_key-Before new v [] e b = refl
has_key-Before new v (w ∷ vs) e b =
    let here : compare_bytes (version_key w) (version_key new) ≡ Ordering.gt =
      (compare_bytes-flip (version_key new) (version_key w)).0 (rw e at b.0) in
    ground (arith, here, has_key-Before new v vs e b.1)

swap-none : (new : Version) (vs : List Version) → has_key new vs ≡ false → swap new vs ≡ vs
swap-none new [] e = refl
swap-none new (v ∷ vs) e = ground (arith, swap-none new vs)

has_key-gt :
    (new v : Version) (vs : List Version)
    → has_key new vs ≡ true
    → All (Before v) vs
    → compare_bytes (version_key new) (version_key v) ≡ Ordering.gt
has_key-gt new v [] e b = cc
has_key-gt new v (w ∷ vs) e b = elim (Bool-cases (bytes_eq (version_key w) (version_key new))) [
  | inl same ↦
      let key : version_key w ≡ version_key new =
        (bytes_eq_iff (version_key w) (version_key new)).0 same in
      (compare_bytes-flip (version_key v) (version_key new)).0 (rw key at b.0)
  | inr other ↦ has_key-gt new v vs (ground (arith, other)) b.1
]

-- Swapping the cell that has the key, in a sorted list, is `put`.
swap-put :
    (new : Version) (vs : List Version)
    → IsSorted vs
    → has_key new vs ≡ true
    → swap new vs ≡ put new vs
swap-put new [] h e = cc
swap-put new (v ∷ vs) h e = elim (Bool-cases (bytes_eq (version_key v) (version_key new))) [
  | inl same ↦
      let key : version_key v ≡ version_key new =
        (bytes_eq_iff (version_key v) (version_key new)).0 same in
      let back : compare_bytes (version_key new) (version_key v) ≡ Ordering.eq =
        rw key (compare_bytes_refl (version_key new)) in
      rw (put-eq new v vs back, same, swap-none new vs (has_key-Before new v vs key h.0)) refl
  | inr other ↦
      let later : has_key new vs ≡ true = ground (arith, other) in
      rw (put-gt new v vs (has_key-gt new v vs later h.0), other, swap-put new vs h.1 later) refl
]

-- The sort on versions.
abbrev insert_version : Version → List Version → List Version
insert_version v [] = v ∷ []
insert_version v (w ∷ l) =
    if bytes_lt (version_key v) (version_key w) then v ∷ w ∷ l else w ∷ insert_version v l

abbrev sort_versions : List Version → List Version
sort_versions [] = []
sort_versions (v ∷ l) = insert_version v (sort_versions l)

abbrev keyed : List Version → List Keyed
keyed [] = []
keyed (v ∷ vs) = (version_key v, raw v) ∷ keyed vs

insert_keyed-keyed :
    (v : Version) (l : List Version)
    → insert_keyed (version_key v, raw v) (keyed l) ≡ keyed (insert_version v l)
unfolding insert_keyed
insert_keyed-keyed v [] = refl
insert_keyed-keyed v (w ∷ l) = ground (arith, insert_keyed-keyed v l)

sort_keyed-keyed : (l : List Version) → sort_keyed (keyed l) ≡ keyed (sort_versions l)
unfolding sort_keyed
sort_keyed-keyed [] = refl
sort_keyed-keyed (v ∷ l) = rw (sort_keyed-keyed l) (insert_keyed-keyed v (sort_versions l))

key_all-keyed : (l : List Version) → All IsVersion l → key_all (raw_leaf l) ≡ ok (keyed l)
unfolding key_all
key_all-keyed [] h = refl
key_all-keyed (v ∷ l) h = rw (deserialize-raw v h.0, key_all-keyed l h.1) refl

unkey-keyed : (l : List Version) → unkey (keyed l) ≡ raw_leaf l
unkey-keyed [] = refl
unkey-keyed (v ∷ l) = ap (λ t. raw v ∷ t) (unkey-keyed l)

sort_cells-raw_leaf :
    (l : List Version) → All IsVersion l → sort_cells (raw_leaf l) ≡ ok (raw_leaf (sort_versions l))
unfolding sort_cells
sort_cells-raw_leaf l h =
    rw (key_all-keyed l h, sort_keyed-keyed l, unkey-keyed (sort_versions l)) refl

insert_version-front :
    (v : Version) (l : List Version) → All (Before v) l → insert_version v l ≡ v ∷ l
insert_version-front v [] b = refl
insert_version-front v (w ∷ l) b = ground (arith, b.0)

sort_sorted : (l : List Version) → IsSorted l → sort_versions l ≡ l
sort_sorted [] h = refl
sort_sorted (v ∷ l) h = rw (sort_sorted l h.1) (insert_version-front v l h.0)

put-front : (new : Version) (l : List Version) → All (Before new) l → put new l ≡ new ∷ l
put-front new [] b = unfold put in refl
put-front new (v ∷ l) b = put-lt new v l b.0

-- Sorting a new version behind sorted ones puts it in its place.
sort_snoc :
    (new : Version) (l : List Version)
    → IsSorted l
    → has_key new l ≡ false
    → sort_versions (l ++ new ∷ []) ≡ put new l
sort_snoc new [] h e = unfold put in refl
sort_snoc new (v ∷ l) h e =
    rw (sort_snoc new l h.1 (ground arith))
      (elim (Ordering-cases (compare_bytes (version_key new) (version_key v))) [
        | inl below ↦
            let back = (compare_bytes-flip (version_key new) (version_key v)).0 below in
            rw (put-lt new v l below, put-front new l (Before-All new v l below h.0))
              (ground (arith, back, insert_version-front v l h.0))
        | inr (inl same) ↦
            let key = compare_bytes-eq (version_key new) (version_key v) same in
            absurd (ground (arith, (bytes_eq_iff (version_key v) (version_key new)).1 (sym key)))
        | inr (inr above) ↦
            let before = (compare_bytes-flip (version_key v) (version_key new)).1 above in
            rw (put-gt new v l above)
              (insert_version-front v (put new l) (All-put (Before v) new l before h.0))
      ])

-- The scan of a leaf of sorted versions ends in a conflict if one of them conflicts with the writer.
pub scan-conflict :
    (tx_mgr : Option TransactionManager) (new : Version) (vs : List Version)
    → IsVersion new
    → All IsVersion vs
    → has_conflict tx_mgr new vs ≡ true
    → (freed : List Bytes) × (scan tx_mgr (version_key new) (raw new) (raw_leaf vs)
        ≡ conflict freed)
unfolding scan
scan-conflict tx_mgr new vs hn hv e =
    let (freed, found) =
      scan_loop-conflict tx_mgr new hn vs
        (record { cells = []; key_exists = false; total_space = 32; freed = [] }) hv e in
    (freed, rw found refl)

raw_leaf-append : (vs ws : List Version) → raw_leaf (vs ++ ws) ≡ raw_leaf vs ++ raw_leaf ws
raw_leaf-append [] ws = refl
raw_leaf-append (v ∷ vs) ws = ap (λ t. raw v ∷ t) (raw_leaf-append vs ws)

-- The size of a sorted list is that of the list.
cells_size-insert_version :
    (v : Version) (l : List Version)
    → cells_size (raw_leaf (insert_version v l)) ≡ 4 + length (raw v) + cells_size (raw_leaf l)
cells_size-insert_version v [] = refl
cells_size-insert_version v (w ∷ l) = ground (arith, cells_size-insert_version v l)

cells_size-sort_versions :
    (l : List Version) → cells_size (raw_leaf (sort_versions l)) ≡ cells_size (raw_leaf l)
cells_size-sort_versions [] = refl
cells_size-sort_versions (v ∷ l) =
    omega (arith, cells_size-insert_version v (sort_versions l), cells_size-sort_versions l)

cells_size-append : (xs ys : List Bytes) → cells_size (xs ++ ys) ≡ cells_size xs + cells_size ys
cells_size-append [] ys = omega arith
cells_size-append (x ∷ xs) ys = omega (arith, cells_size-append xs ys)

-- Without a conflict the scan and the sort give the sorted list with the new version put into it,
-- and the space that it takes.
pub scan-put :
    (tx_mgr : Option TransactionManager) (new : Version) (vs : List Version)
    → IsVersion new
    → IsLeaf vs
    → has_conflict tx_mgr new vs ≡ false
    → (s : Scan) × (scan tx_mgr (version_key new) (raw new) (raw_leaf vs) ≡ scanned s)
      × (sort_cells s.cells ≡ ok (raw_leaf (put new vs)))
      × (s.total_space ≡ 32 + cells_size (raw_leaf (put new vs)))
unfolding scan
scan-put tx_mgr new vs hn h e =
    let (s, runs, cells, exists, total) =
      scan_loop-scanned tx_mgr new hn vs
        (record { cells = []; key_exists = false; total_space = 32; freed = [] }) h.0 e in
    elim (Bool-cases (has_key new vs)) [
      | inl old ↦
          let swapped = swap-put new vs h.1 old in
          let all : All IsVersion (put new vs) = All-put IsVersion new vs hn h.0 in
          let sorted = sort_sorted (put new vs) (put-IsSorted new vs h.1) in
          (
            s,
            rw (runs, exists, old) refl,
            rw (cells, swapped, sort_cells-raw_leaf (put new vs) all, sorted) refl,
            rw swapped at total,
          )
      | inr fresh ↦
          let same = swap-none new vs fresh in
          let appended : raw_leaf vs ++ raw new ∷ [] ≡ raw_leaf (vs ++ new ∷ []) =
            sym (raw_leaf-append vs (new ∷ [])) in
          let sorted = sort_snoc new vs h.1 fresh in
          let all = All-append IsVersion vs (new ∷ []) h.0 (hn, tt) in
          let size : cells_size (raw_leaf (put new vs))
              ≡ cells_size (raw_leaf vs) + cells_size (raw new ∷ []) =
            ap (λ (l : List Version). cells_size (raw_leaf l)) (sym sorted)
            ∙ cells_size-sort_versions (vs ++ new ∷ [])
            ∙ ap cells_size (raw_leaf-append vs (new ∷ []))
            ∙ cells_size-append (raw_leaf vs) (raw new ∷ []) in
          let total' : s.total_space ≡ 32 + cells_size (raw_leaf vs) = rw same at total in
          (
            finish_scan (raw new) s,
            rw runs refl,
            rw (exists, fresh, cells, same, appended)
                (sort_cells-raw_leaf (vs ++ new ∷ []) all
                  ∙ ap (λ (l : List Version). ok (raw_leaf l)) sorted),
            rw (exists, fresh) (omega (arith, total', size)),
          )
    ]
