-- ===== src/Tests/Writes.antt =====
-- Runs of Insert on the whole tree: internal/storage/btree.go.
use ryu_db.Base.{
  ℕ, ◌+◌, ◌*◌, ◌^◌, ◌<◌, ◌≤◌, ◌≡◌, ◌≢◌, inl, inr, refl, sym, ap, ◌∙◌, arith, true, false, Option,
  none, some, List, [], ◌∷◌, Bytes, length, ok, ◌==◌, if◌then◌else◌,
}
use ryu_db.Tree.Find.{find, answer_of, find-upsert_cell}
use ryu_db.Base.State.{Ends}
use ryu_db.Base.Table.{lookup}
use ryu_db.Bytes.Order.{compare_bytes}
use ryu_db.Cell.{is_overflow}
use ryu_db.Page.{Page}
use ryu_db.Txn.Key.{build_mvcc_key}
use ryu_db.Leaf.Read.{latest_value}
use ryu_db.Leaf.Latest.{sees}
use ryu_db.Leaf.Put.{put}
use ryu_db.Base.{replicate, length-replicate}
use ryu_db.Leaf.Inline.{AllInline}
use ryu_db.Leaf.Versions.{raw_leaf, to_cell, version_key}
use ryu_db.Buffer.View.{content, view}
use ryu_db.Buffer.Pins.{IsUsing}
use ryu_db.Tree.Content.{content-field, content-IsPage, content-Holds}
use ryu_db.Tree.Descend.{next_child_id, match_loop}
use ryu_db.Tree.Walk.{LeadsTo}
use ryu_db.Tree.Upsert.{Puts, upsert_cell-Puts, content-page_id}
use ryu_db.Tree.ReadWrite.{find_latest-upsert_cell}
use ryu_db.Tree.Split.{BTree}
use ryu_db.Tree.Refuse.{Refuses, upsert_cell_conflict}
use ryu_db.Tree.Ops.{find_latest, upsert_cell}
use ryu_db.Tests.Leaves.{
  versions, versions-IsLeaf, manager, next, next-IsVersion, no_conflict, next_room, busy,
  in_conflict,
}
use ryu_db.Tests.Trees.{
  pool_with, pool_with-IsReady, root_page, root, routing, root_cells_read, versions_page,
  versions_leaf, versions_tree,
}

pub pool_with-IsUsing :
    (p q : Page) → length p.bytes ≡ 4096 → length q.bytes ≡ 4096 → IsUsing 4 [] (pool_with p q)
unfolding lookup ryu_db.Base.Table.insert
pool_with-IsUsing p q size_p size_q = record {
  pool = (pool_with-IsReady p q size_p size_q).quiet.pool;
  pins = λ j g e. ground (arith, e);
  there = λ j used. absurd (used refl);
  writes = refl;
  size = refl;
}

versions_tree-IsUsing : IsUsing 4 [] versions_tree.bm
versions_tree-IsUsing =
    pool_with-IsUsing versions_leaf root versions_page.1.is_page.size root_page.2.is_page.size

next-LeadsTo : LeadsTo (view versions_tree.bm) (version_key next) 1 0 1 (content versions_leaf)
unfolding lookup ryu_db.Base.Table.insert next_child_id match_loop compare_bytes build_mvcc_key
next-LeadsTo =
    let (q, stored, holds, cells, kind) = root_page in
    let (l, holds', kind', id) = versions_page in
    (
      content root,
      routing,
      refl,
      content-IsPage root holds.is_page,
      (λ e. omega (arith, e, content-field root 20 1 (omega arith), kind)),
      root_cells_read,
      omega arith,
      (refl, refl, content-field versions_leaf 20 1 (omega arith) ∙ kind'),
    )

pub versions-AllInline : AllInline versions
unfolding is_overflow
versions-AllInline = (refl, (refl, (refl, tt)))

upsert_cell-Puts_example :
    Ends
      (λ _. Puts 4 1 (put next versions) versions_tree)
      (upsert_cell 2 (version_key next) next.value next.flag versions_tree)
upsert_cell-Puts_example =
    upsert_cell-Puts 4 1 2 1 (content versions_leaf) next versions versions_tree
      versions_tree-IsUsing (omega arith) next-LeadsTo (omega arith)
      (content-page_id versions_leaf ∙ versions_page.3)
      (content-Holds versions_leaf (raw_leaf versions) versions_page.1) versions-IsLeaf
      versions-AllInline next-IsVersion (omega arith) no_conflict next_room

find_latest-upsert_cell_example :
    Ends
      (λ _ t'.
        ((find_latest 2 (version_key next) t').0 ≡ latest_value ok (some (to_cell next)))
        × ((user : Bytes) (reader m : ℕ)
            → reader < 2 ^ 64
            → LeadsTo
                (view versions_tree.bm)
                (build_mvcc_key user reader)
                m
                0
                1
                (content versions_leaf)
            → m < 2
            → sees (some manager) user reader next ≡ false
            → (find_latest 2 (build_mvcc_key user reader) t').0
              ≡ (find_latest 2 (build_mvcc_key user reader) versions_tree).0))
      (upsert_cell 2 (version_key next) next.value next.flag versions_tree)
find_latest-upsert_cell_example =
    find_latest-upsert_cell 4 1 2 1 (content versions_leaf) next versions versions_tree
      versions_tree-IsUsing (omega arith) next-LeadsTo (omega arith)
      (content-page_id versions_leaf ∙ versions_page.3)
      (content-Holds versions_leaf (raw_leaf versions) versions_page.1) versions-IsLeaf
      versions-AllInline next-IsVersion (unfold is_overflow in refl) (omega arith) no_conflict
      next_room

find-upsert_cell_example :
    Ends
      (λ _ t'.
        ((find 2 (version_key next) t').0 ≡ answer_of (some next))
        × ((key : Bytes) (m : ℕ)
            → LeadsTo (view versions_tree.bm) key m 0 1 (content versions_leaf)
            → m < 2
            → key ≢ version_key next
            → (find 2 key t').0 ≡ (find 2 key versions_tree).0))
      (upsert_cell 2 (version_key next) next.value next.flag versions_tree)
find-upsert_cell_example =
    find-upsert_cell 4 1 2 1 (content versions_leaf) next versions versions_tree
      versions_tree-IsUsing (omega arith) next-LeadsTo (omega arith)
      (content-page_id versions_leaf ∙ versions_page.3)
      (content-Holds versions_leaf (raw_leaf versions) versions_page.1) versions-IsLeaf
      versions-AllInline next-IsVersion (unfold is_overflow in refl) (omega arith) no_conflict
      next_room

-- The tree of the versions, while the writer of one of them is still running.
abbrev busy_tree : BTree
busy_tree = record versions_tree { tx_mgr = some busy }

upsert_cell_conflict_example :
    Refuses 4 busy_tree (upsert_cell 2 (version_key next) next.value next.flag busy_tree)
upsert_cell_conflict_example =
    upsert_cell_conflict 4 1 2 1 (content versions_leaf) next versions busy_tree
      versions_tree-IsUsing (omega arith) next-LeadsTo (omega arith)
      (content-page_id versions_leaf ∙ versions_page.3)
      (content-Holds versions_leaf (raw_leaf versions) versions_page.1) versions-IsLeaf
      versions-AllInline next-IsVersion (omega arith) in_conflict
