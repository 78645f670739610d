-- ===== src/Tree/Refuse.antt =====
-- Insert and Delete on the whole tree, where a version on the leaf conflicts with the write.
use ryu_db.Base.{
  ℕ, ◌≤◌, ◌<◌, ◌≡◌, refl, sym, ap, ◌∙◌, arith, true, false, ltb, length, List, [], Result, err,
  write_conflict,
}
use ryu_db.Page.{Page, get_page_id}
use ryu_db.Page.Rebuild.{Holds}
use ryu_db.Leaf.Versions.{Version, IsVersion, IsLeaf, raw_leaf, version_key}
use ryu_db.Leaf.Inline.{AllInline}
use ryu_db.Leaf.Scan.{has_conflict}
use ryu_db.Leaf.WriteLeaf.{write_leaf_conflict}
use ryu_db.Buffer.View.{view}
use ryu_db.Buffer.Pins.{IsUsing}
use ryu_db.Tree.Content.{Holds-content}
use ryu_db.Tree.Walk.{LeadsTo}
use ryu_db.Tree.WalkWrite.{find_leaf_page-Found, unpin_read-LetGo}
use ryu_db.Tree.Split.{BTree}
use ryu_db.Tree.Upsert.{content-page_id}
use ryu_db.Tree.Ops.{upsert_cell}

-- The error of a conflict, with the pages, the root and the transactions as they were.
pub record Refuses (limit : ℕ) (t : BTree) (r : Result (Unit {0}) × BTree) : Type 0 where
  pub answer : r.0 ≡ err write_conflict
  pub use_none : IsUsing limit [] r.1.bm
  pub same : (j : ℕ) → view r.1.bm j ≡ view t.bm j
  pub root : r.1.root_page_id ≡ t.root_page_id
  pub manager : r.1.tx_mgr ≡ t.tx_mgr

-- On a well-formed pool where no page is in use, no write fails and there is room for a page, a write
-- of a value of at most 1024 bytes, with which a version on its leaf conflicts, ends with the error of
-- a write-write conflict; no page has changed but for its LSN, none is in use, and the root and the
-- transaction manager are as they were. The leaf, to which the routing cells lead, holds its own id and
-- sorted versions that hold their values, of user keys without a zero byte, and the fuel is above the
-- number of the internal pages.
pub upsert_cell_conflict :
    (limit n fuel leaf_id : ℕ) (leaf : Page) (new : Version) (vs : List Version) (t : BTree)
    → IsUsing limit [] t.bm
    → 0 < limit
    → LeadsTo (view t.bm) (version_key new) n t.root_page_id leaf_id leaf
    → n < fuel
    → get_page_id leaf ≡ leaf_id
    → Holds leaf (raw_leaf vs)
    → IsLeaf vs
    → AllInline vs
    → IsVersion new
    → length new.value ≤ 1024
    → has_conflict t.tx_mgr new vs ≡ true
    → Refuses limit t (upsert_cell fuel (version_key new) new.value new.flag t)
unfolding upsert_cell
upsert_cell_conflict limit n fuel leaf_id leaf new vs t h room leads enough own holds is_leaf inline
      hn short clash =
    let key = version_key new in
    let f =
      find_leaf_page-Found true limit n fuel key t.root_page_id leaf_id leaf t.bm h room leads
        enough in
    let held = f.holds.holding in
    let p = f.value.0 in
    let p_holds = Holds-content p (raw_leaf vs) (rw (held.shown) holds) in
    let p_own : get_page_id p ≡ leaf_id =
      sym (content-page_id p) ∙ ap get_page_id held.shown ∙ own in
    let plain : ltb 1024 (length new.value) ≡ false = ground (arith, short) in
    let (freed, found, none_freed) =
      write_leaf_conflict t.tx_mgr new p vs hn p_holds is_leaf clash in
    let l = unpin_read-LetGo limit [] leaf_id t.bm leaf p f.state held in
    rw (f.is_ok, plain, found, none_freed inline, p_own, l.is_ok)
      (record {
        answer = refl;
        use_none = l.holds.use_less;
        same = λ j. l.holds.same j ∙ held.same j;
        root = refl;
        manager = refl;
      })
