-- ===== src/Tree/Find.antt =====
-- internal/storage/btree.go: Find on the whole tree. `fuel` bounds the depth of the tree and the length
-- of an overflow chain.
use ryu_db.Base.{
  ℕ, ◌+◌, ◌≤◌, ◌<◌, ◌≡◌, ◌≢◌, refl, sym, ap, ◌∙◌, arith, true, false, Bool-cases, inl, inr, Option,
  none, some, List, [], ◌∷◌, Bytes, length, if◌then◌else◌, Result, ok, err,
}
use ryu_db.Base
use ryu_db.Base.State.{◌>>=◌, Ends, Ends-imp}
use ryu_db.Bytes.Order.{bytes_eq, bytes_eq_iff, compare_bytes, compare_bytes-eq, compare_bytes_refl}
use ryu_db.Cell.{KvCell, is_deleted, is_overflow, deserialize_kv_cell}
use ryu_db.Page.{Page, get_page_id}
use ryu_db.Page.Rebuild.{Holds, page_cells, page_cells-Holds}
use ryu_db.Leaf.Versions.{Version, IsVersion, raw_leaf, to_cell, version_key, deserialize-raw}
use ryu_db.Leaf.Put.{put, Ordering-cases, put-lt, put-eq, put-gt}
use ryu_db.Base.{All}
use ryu_db.Leaf.Inline.{IsInline, AllInline}
use ryu_db.Buffer.{BufferManager}
use ryu_db.Buffer.View.{view}
use ryu_db.Buffer.Pins.{IsUsing}
use ryu_db.Tree.Pages.{Pages, return, raise, unpin, deferring}
use ryu_db.Tree.Content.{Holds-content}
use ryu_db.Tree.Overflow.{read_overflow_chain}
use ryu_db.Tree.Descend.{find_leaf_page}
use ryu_db.Tree.Walk.{LeadsTo}
use ryu_db.Tree.WalkWrite.{find_leaf_page-Found}
use ryu_db.Tree.Split.{BTree, on_pages}
use ryu_db.Tree.Ops.{upsert_cell}
use ryu_db.Tree.Upsert.{upsert_cell-Puts}
use ryu_db.Tree.ReadWrite.{LeadsTo-leaf}
use ryu_db.Leaf.Versions.{IsLeaf}
use ryu_db.Leaf.Put.{All-put, put-IsLeaf}
use ryu_db.Leaf.Scan.{has_conflict}
use ryu_db.Page.Rebuild.{cells_size}
use ryu_db.Base.State.{Op}

-- The first cell with the key.
unfoldable pub find_cell : Bytes → List Bytes → Result (Option KvCell)
unfolding deserialize_kv_cell
find_cell key [] = ok none
find_cell key (c ∷ cs) =
    Base.◌>>=◌ (deserialize_kv_cell c)
      λ kv. let rest = find_cell key cs in if bytes_eq kv.key key then ok (some kv) else rest

abbrev pub found_cell : ℕ → Option KvCell → Pages Bytes
found_cell fuel none = raise (err Base.key_not_found)
found_cell fuel (some kv) =
    if is_deleted kv
    then raise (err Base.key_not_found)
    else if is_overflow kv
    then read_overflow_chain fuel kv.value
    else return kv.value

abbrev pub find_on_leaf : ℕ → Bytes → Page × List ℕ → Pages Bytes
find_on_leaf fuel key (leaf, path) =
    deferring (do cell ← raise (Base.◌>>=◌ (page_cells leaf) (find_cell key)); found_cell fuel cell)
      (unpin (get_page_id leaf) false)

unfoldable pub find : ℕ → Bytes → Op BTree Bytes
unfolding find_leaf_page read_overflow_chain find_cell
find fuel key t =
    on_pages (do leaf ← find_leaf_page fuel t.root_page_id key false; find_on_leaf fuel key leaf) t

-- The version with the key.
abbrev pub with_key : Bytes → List Version → Option Version
with_key key [] = none
with_key key (v ∷ vs) = if bytes_eq (version_key v) key then some v else with_key key vs

-- What Find answers to it, if the cell holds the value.
abbrev pub answer_of : Option Version → Result Bytes
answer_of none = err Base.key_not_found
answer_of (some v) = if is_deleted (to_cell v) then err Base.key_not_found else ok v.value

abbrev cell_of : Option Version → Option KvCell
cell_of none = none
cell_of (some v) = some (to_cell v)

find_cell-with_key :
    (key : Bytes) (vs : List Version)
    → All IsVersion vs
    → find_cell key (raw_leaf vs) ≡ ok (cell_of (with_key key vs))
unfolding find_cell
find_cell-with_key key [] h = refl
find_cell-with_key key (v ∷ vs) h = elim (Bool-cases (bytes_eq (version_key v) key)) [
  | inl here ↦ rw (deserialize-raw v h.0, here) refl
  | inr not_here ↦ rw (deserialize-raw v h.0, not_here) (find_cell-with_key key vs h.1)
]

with_key-put :
    (key : Bytes) (new : Version) (vs : List Version)
    → with_key key (put new vs)
      ≡ (if bytes_eq (version_key new) key then some new else with_key key vs)
with_key-put key new [] = unfold put in refl
with_key-put key new (v ∷ vs) =
    elim (Ordering-cases (compare_bytes (version_key new) (version_key v))) [
      | inl below ↦ rw (put-lt new v vs below) refl
      | inr (inl same) ↦
          let e : version_key new ≡ version_key v =
            compare_bytes-eq (version_key new) (version_key v) same in
          rw (put-eq new v vs same, e)
            (elim (Bool-cases (bytes_eq (version_key v) key)) [
              | inl here ↦ rw here refl
              | inr not_here ↦ rw not_here refl
            ])
      | inr (inr above) ↦
          rw (put-gt new v vs above, with_key-put key new vs)
            (elim (Bool-cases (bytes_eq (version_key v) key)) [
              | inr not_here ↦ rw not_here refl
              | inl here ↦
                  let apart : bytes_eq (version_key new) key ≡ false =
                    elim (Bool-cases (bytes_eq (version_key new) key)) [
                      | inr ne ↦ ne
                      | inl e ↦
                          let one : version_key new ≡ key =
                            (bytes_eq_iff (version_key new) key).0 e in
                          let two : version_key v ≡ key =
                            (bytes_eq_iff (version_key v) key).0 here in
                          let same : version_key new ≡ version_key v = one ∙ sym two in
                          absurd (
                            cc (
                              above,
                              ap (compare_bytes (version_key new)) same,
                              compare_bytes_refl (version_key new),
                            ))
                    ] in
                  rw (here, apart) refl
            ])
    ]

with_key-IsInline : (key : Bytes) (vs : List Version) → AllInline vs → IsInline (with_key key vs)
with_key-IsInline key [] h = tt
with_key-IsInline key (v ∷ vs) h = elim (Bool-cases (bytes_eq (version_key v) key)) [
  | inl here ↦ rw here (h.0)
  | inr not_here ↦ rw not_here (with_key-IsInline key vs h.1)
]

found_cell-answer_of :
    (fuel : ℕ) (o : Option Version) (b : BufferManager)
    → IsInline o
    → (found_cell fuel (cell_of o) b).0 ≡ answer_of o
found_cell-answer_of fuel none b inline = refl
found_cell-answer_of fuel (some v) b inline = elim (Bool-cases (is_deleted (to_cell v))) [
  | inl gone ↦ rw gone refl
  | inr there ↦ rw (there, inline) refl
]

find-with_key :
    (limit n fuel leaf_id : ℕ) (key : Bytes) (leaf : Page) (vs : List Version) (t : BTree)
    → IsUsing limit [] t.bm
    → 0 < limit
    → LeadsTo (view t.bm) key n t.root_page_id leaf_id leaf
    → n < fuel
    → Holds leaf (raw_leaf vs)
    → All IsVersion vs
    → AllInline vs
    → (find fuel key t).0 ≡ answer_of (with_key key vs)
unfolding find
find-with_key limit n fuel leaf_id key leaf vs t h room leads enough holds all inline =
    let r =
      find_leaf_page-Found false limit n fuel key t.root_page_id leaf_id leaf t.bm h room leads
        enough in
    let p = r.value.0 in
    let cells : page_cells p ≡ ok (raw_leaf vs) =
      page_cells-Holds p (raw_leaf vs)
        (Holds-content p (raw_leaf vs) (rw (r.holds.holding.shown) holds)) in
    rw (r.is_ok, cells, find_cell-with_key key vs all)
      (found_cell-answer_of fuel (with_key key vs) r.state (with_key-IsInline key vs inline))

-- On a well-formed pool where no page is in use, no write fails and there is room for a page, a write
-- of a version by which no version on its leaf conflicts, and whose cells fit that leaf and hold
-- their values, succeeds; Find then answers the key of the new version with it, or with an error
-- where it is a deletion, and every other key that the routing cells lead to the leaf with what it
-- answered before the write. The leaf, to which the routing cells lead, holds its own id and sorted
-- versions, the value has at most 1024 bytes, and the fuel is above the number of the internal pages.
-- No user key of a version has a zero byte.
pub find-upsert_cell :
    (limit n fuel leaf_id : ℕ) (leaf : Page) (new : Version) (vs : List Version) (t : BTree)
    → IsUsing limit [] t.bm
    → 0 < limit
    → LeadsTo (view t.bm) (version_key new) n t.root_page_id leaf_id leaf
    → n < fuel
    → get_page_id leaf ≡ leaf_id
    → Holds leaf (raw_leaf vs)
    → IsLeaf vs
    → AllInline vs
    → IsVersion new
    → is_overflow (to_cell new) ≡ false
    → length new.value ≤ 1024
    → has_conflict t.tx_mgr new vs ≡ false
    → 32 + cells_size (raw_leaf (put new vs)) ≤ 4096
    → Ends
        (λ _ t'.
          ((find fuel (version_key new) t').0 ≡ answer_of (some new))
          × ((key : Bytes) (m : ℕ)
              → LeadsTo (view t.bm) key m t.root_page_id leaf_id leaf
              → m < fuel
              → key ≢ version_key new
              → (find fuel key t').0 ≡ (find fuel key t).0))
        (upsert_cell fuel (version_key new) new.value new.flag t)
find-upsert_cell limit n fuel leaf_id leaf new vs t h room leads enough own holds is_leaf inline hn
      plain short apart fit =
    Ends-imp (upsert_cell fuel (version_key new) new.value new.flag t)
      (upsert_cell-Puts limit n fuel leaf_id leaf new vs t h room leads enough own holds is_leaf
        inline hn short apart fit)
      λ u t' p.
        let new_inline : AllInline (put new vs) =
          All-put (λ v. is_overflow (to_cell v) ≡ false) new vs plain inline in
        let answers =
          λ (key : Bytes) (m : ℕ) (way : LeadsTo (view t.bm) key m t.root_page_id leaf_id leaf)
              (few : m < fuel).
            find-with_key limit m fuel leaf_id key p.leaf (put new vs) t' p.use_none room
              (rw (p.root) (
                LeadsTo-leaf (view t.bm) (view t'.bm) key m t.root_page_id leaf_id leaf p.leaf
                  p.shown p.is_leaf way))
              few p.holds (put-IsLeaf new vs hn is_leaf).0 new_inline
            ∙ ap answer_of (with_key-put key new vs) in
        let itself : bytes_eq (version_key new) (version_key new) ≡ true =
          (bytes_eq_iff (version_key new) (version_key new)).1 refl in
        (
          answers (version_key new) n leads enough ∙ (rw itself refl),
          λ key m way few ne.
              let other : bytes_eq (version_key new) key ≡ false =
                elim (Bool-cases (bytes_eq (version_key new) key)) [
                  | inr no_match ↦ no_match
                  | inl e ↦ absurd (ne (sym ((bytes_eq_iff (version_key new) key).0 e)))
                ] in
              answers key m way few
              ∙ (rw other refl)
              ∙ sym (
                  find-with_key limit m fuel leaf_id key leaf vs t h room way few holds is_leaf.0
                    inline),
        )
