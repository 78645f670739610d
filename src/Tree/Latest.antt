-- ===== src/Tree/Latest.antt =====
-- FindLatest on the whole tree.
use ryu_db.Base.{
  ℕ, ◌^◌, ◌<◌, ◌≡◌, inl, refl, sym, ap, ◌∙◌, arith, Bool-cases, inr, false, Option, none, some,
  List, Bytes, ◌==◌, Result, ok, err, panic,
}
use ryu_db.Base.State.{and_then, ignore}
use ryu_db.Page.{Page, get_page_id}
use ryu_db.Page.Fields.{read_field-put_field_ne}
use ryu_db.Page.Rebuild.{Holds, page_cells, page_cells-Holds}
use ryu_db.Txn.{TransactionManager}
use ryu_db.Txn.Key.{build_mvcc_key}
use ryu_db.Leaf.Read.{latest_value}
use ryu_db.Leaf.Versions.{Version, IsLeaf, raw_leaf}
use ryu_db.Leaf.Latest.{newest, map_cell, find_latest_loop-leaf}
use ryu_db.Leaf.Inline.{IsInline}
use ryu_db.Buffer.{BufferManager, unpin_page}
use ryu_db.Buffer.View.{content, view}
use ryu_db.Buffer.Ready.{IsReady}
use ryu_db.Tree.Descend.{find_leaf_page}
use ryu_db.Tree.Walk.{LeadsTo, Finds, find_leaf_page-Finds}
use ryu_db.Tree.Content.{page_cells-content}
use ryu_db.Tree.Split.{BTree}
use ryu_db.Tree.Ops.{found_latest, latest_on_leaf, find_latest}

ignore_state : {S A : Type 0} (r : Result A × S) → (ignore r).1 ≡ r.1
ignore_state (ok a, s) = refl
ignore_state (err e, s) = refl
ignore_state (panic, s) = refl

found_latest-IsInline :
    (fuel : ℕ) (o : Option Version) (b : BufferManager)
    → IsInline o
    → found_latest fuel (map_cell o) b ≡ (latest_value ok (map_cell o), b)
found_latest-IsInline fuel none b inline = refl
found_latest-IsInline fuel (some v) b inline = elim (Bool-cases (v.flag == 2)) [
  | inl gone ↦ rw gone refl
  | inr there ↦ rw (there, inline) refl
]

-- The answer, and the state behind it.
abbrev pub Answers : Result Bytes → BufferManager → Result Bytes × BufferManager → Type 0
Answers a b r = (r.0 ≡ a) × IsReady r.1 × ((j : ℕ) → view r.1 j ≡ view b j)

module _ (fuel : ℕ) (tx_mgr : Option TransactionManager) (user : Bytes) (reader leaf_id : ℕ)
    (leaf : Page) (vs : List Version) where
  latest_on_leaf-Finds :
      (steps : ℕ) (b : BufferManager) (r : Result (Page × List ℕ) × BufferManager)
      → reader < 2 ^ 64
      → Finds leaf_id leaf steps b r
      → get_page_id leaf ≡ leaf_id
      → Holds leaf (raw_leaf vs)
      → IsLeaf vs
      → IsInline (newest tx_mgr user reader vs)
      → Answers
          (latest_value ok (map_cell (newest tx_mgr user reader vs)))
          b
          (and_then r (latest_on_leaf fuel (build_mvcc_key user reader) tx_mgr))
  latest_on_leaf-Finds steps b (ok (p, path), b1) hr h own holds is_leaf inline =
      let same : content p ≡ leaf = let e : p ≡ h.page = cc h.found in ap content e ∙ h.is_leaf in
      let id_same : get_page_id p ≡ leaf_id =
        sym (read_field-put_field_ne 12 8 0 p 8 4 (inl (omega arith)))
        ∙ ap get_page_id same
        ∙ own in
      let cells : page_cells p ≡ ok (raw_leaf vs) =
        page_cells-content p (rw same holds.is_page)
        ∙ ap page_cells same
        ∙ page_cells-Holds leaf (raw_leaf vs) holds in
      let best = find_latest_loop-leaf tx_mgr user reader hr vs is_leaf in
      rw (cells, best, found_latest-IsInline fuel (newest tx_mgr user reader vs) b1 inline, id_same)
        (
          refl,
          rw (ignore_state (unpin_page leaf_id false b1)) h.ready,
          λ j. rw (ignore_state (unpin_page leaf_id false b1)) (h.same j),
        )
  latest_on_leaf-Finds steps b (err x, b1) hr h own holds is_leaf inline = absurd (cc h.found)
  latest_on_leaf-Finds steps b (panic, b1) hr h own holds is_leaf inline = absurd (cc h.found)

-- On a well-formed pool where no page is in use, no write fails and there is room for a page,
-- FindLatest answers by the newest version of the key that its reader sees on the leaf to which the
-- routing cells lead, if that leaf holds its own id and sorted versions, the value found is not in
-- overflow pages, the reader's id has 64 bits and the fuel is above the number of the internal pages;
-- no page changes, and none is in use behind it. No user key of a version has a zero byte.
pub find_latest-newest :
    (n fuel : ℕ) (user : Bytes) (reader leaf_id : ℕ) (leaf : Page) (vs : List Version) (t : BTree)
    → reader < 2 ^ 64
    → IsReady t.bm
    → LeadsTo (view t.bm) (build_mvcc_key user reader) n t.root_page_id leaf_id leaf
    → n < fuel
    → get_page_id leaf ≡ leaf_id
    → Holds leaf (raw_leaf vs)
    → IsLeaf vs
    → IsInline (newest t.tx_mgr user reader vs)
    → let (answer, t') = find_latest fuel (build_mvcc_key user reader) t in
      Answers (latest_value ok (map_cell (newest t.tx_mgr user reader vs))) t.bm (answer, t'.bm)
unfolding find_latest
find_latest-newest n fuel user reader leaf_id leaf vs t hr ready leads enough own holds is_leaf
      inline =
    latest_on_leaf-Finds fuel t.tx_mgr user reader leaf_id leaf vs n t.bm
      (find_leaf_page fuel t.root_page_id (build_mvcc_key user reader) false t.bm) hr
      (find_leaf_page-Finds n fuel (build_mvcc_key user reader) t.root_page_id leaf_id leaf t.bm
        ready leads enough)
      own holds is_leaf inline
