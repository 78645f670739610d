-- ===== src/Tree/Upsert.antt =====
-- Insert and Delete on the whole tree, where the leaf has room: the leaf holds the new version.
use ryu_db.Base.{
  ℕ, ◌+◌, ◌≤◌, ◌<◌, ◌≡◌, refl, sym, ap, ◌∙◌, arith, true, false, inl, some, List, [], ◌∷◌, length,
  ltb, ◌==◌, ==_iff, if◌then◌else◌,
}
use ryu_db.Base.State.{Ends, Ends-and_then, Ends-imp}
use ryu_db.Page.{Page, get_page_id, get_page_type, page_type_leaf}
use ryu_db.Page.Fields.{read_field-put_field_ne}
use ryu_db.Page.Rebuild.{Holds, cells_size}
use ryu_db.Leaf.Read.{sees_commited}
use ryu_db.Leaf.Versions.{Version, IsVersion, IsLeaf, raw_leaf, to_cell, version_key}
use ryu_db.Leaf.Put.{put}
use ryu_db.Leaf.Inline.{AllInline}
use ryu_db.Leaf.Scan.{has_conflict}
use ryu_db.Leaf.Write.{fits}
use ryu_db.Leaf.WriteLeaf.{write_leaf_fits}
use ryu_db.Buffer.View.{content, view}
use ryu_db.Buffer.Pins.{IsUsing}
use ryu_db.Tree.Pages.{store}
use ryu_db.Tree.Held.{store-Stored}
use ryu_db.Tree.Content.{content-field, Holds-content, content-Holds}
use ryu_db.Tree.Descend.{find_leaf_page}
use ryu_db.Tree.Walk.{LeadsTo}
use ryu_db.Tree.WalkWrite.{find_leaf_page-Found}
use ryu_db.Tree.Split.{BTree, on_pages}
use ryu_db.Tree.Insert.{Ends-on_pages, log_write-Logged}
use ryu_db.Tree.Ops.{log_write, finish_write, upsert_cell}

pub content-page_id : (p : Page) → get_page_id (content p) ≡ get_page_id p
content-page_id p = read_field-put_field_ne 12 8 0 p 8 4 (inl (omega arith))

-- The leaf `leaf_id` is another page, which holds the versions and its own id, and no other page has
-- changed. No page is in use, and the transactions are as they were.
pub record Puts (limit leaf_id : ℕ) (vs : List Version) (t t' : BTree) : Type 0 where
  pub use_none : IsUsing limit [] t'.bm
  pub root : t'.root_page_id ≡ t.root_page_id
  pub commited : (tx : ℕ) → sees_commited t'.tx_mgr tx ≡ sees_commited t.tx_mgr tx
  pub leaf : Page
  pub shown : (j : ℕ) → view t'.bm j ≡ (if leaf_id == j then some leaf else view t.bm j)
  pub holds : Holds leaf (raw_leaf vs)
  pub own_id : get_page_id leaf ≡ leaf_id
  pub is_leaf : get_page_type leaf ≡ page_type_leaf

pub finish_write-Puts :
    (limit leaf_id : ℕ) (vs : List Version) (p q : Page) (path : List ℕ) (new : Version)
    (t0 t : BTree)
    → IsUsing limit (leaf_id ∷ []) t.bm
    → ((j : ℕ) → view t.bm j ≡ view t0.bm j)
    → t.root_page_id ≡ t0.root_page_id
    → t.tx_mgr ≡ t0.tx_mgr
    → get_page_id p ≡ leaf_id
    → get_page_id q ≡ leaf_id
    → get_page_type q ≡ page_type_leaf
    → Holds q (raw_leaf vs)
    → Ends (λ _. Puts limit leaf_id vs t0) (finish_write p path (to_cell new) (fits q) t)
finish_write-Puts limit leaf_id vs p q path new t0 t h before root manager own own' kind holds =
    rw own (
      Ends-and_then (on_pages (store leaf_id q) t)
        (λ stored t'. log_write q (to_cell new) t'.bm.wal t')
        (Ends-on_pages (store leaf_id q) t
          (store-Stored limit (leaf_id ∷ []) leaf_id q t.bm h (ground arith) holds.is_page.size))
        λ u t1 s.
          let here : (leaf_id == leaf_id) ≡ true = (==_iff leaf_id leaf_id).1 refl in
          let shown : view t1.bm leaf_id ≡ some (content q) =
            s.pages.shown leaf_id ∙ (rw here refl) in
          Ends-imp (log_write q (to_cell new) t1.bm.wal t1)
            (log_write-Logged limit leaf_id q (to_cell new) t1.bm.wal t1 s.pages.use_same own' shown
              holds.is_page.size)
            λ v t2 l. record {
              use_none = l.use_none;
              root = l.root ∙ s.root ∙ root;
              commited = λ tx. l.commited tx ∙ ap (λ m. sees_commited m tx) (s.manager ∙ manager);
              leaf = content q;
              shown = λ j.
                  l.same j
                  ∙ s.pages.shown j
                  ∙ ap (λ o. if leaf_id == j then some (content q) else o) (before j);
              holds = content-Holds q (raw_leaf vs) holds;
              own_id = content-page_id q ∙ own';
              is_leaf = content-field q 20 1 (omega arith) ∙ kind;
            })

-- On a well-formed pool where no page is in use, no write fails and there is room for a page, a write
-- of a version by which no version on its leaf conflicts, and whose cells fit that leaf and hold
-- their values, succeeds: the leaf to which the routing cells lead then holds the old versions with
-- the new one put in its place, in order, no other page has changed, none is in use, and the same
-- transactions are committed. The leaf holds its own id and sorted versions, the value has at most
-- 1024 bytes, and the fuel is above the number of the internal pages. No user key of a version has a
-- zero byte.
pub upsert_cell-Puts :
    (limit n fuel leaf_id : ℕ) (leaf : Page) (new : Version) (vs : List Version) (t : BTree)
    → IsUsing limit [] t.bm
    → 0 < limit
    → LeadsTo (view t.bm) (version_key new) n t.root_page_id leaf_id leaf
    → n < fuel
    → get_page_id leaf ≡ leaf_id
    → Holds leaf (raw_leaf vs)
    → IsLeaf vs
    → AllInline vs
    → IsVersion new
    → length new.value ≤ 1024
    → has_conflict t.tx_mgr new vs ≡ false
    → 32 + cells_size (raw_leaf (put new vs)) ≤ 4096
    → Ends
        (λ _. Puts limit leaf_id (put new vs) t)
        (upsert_cell fuel (version_key new) new.value new.flag t)
unfolding upsert_cell
upsert_cell-Puts limit n fuel leaf_id leaf new vs t h room leads enough own holds is_leaf inline hn
      short apart fit =
    let key = version_key new in
    let walk = find_leaf_page fuel t.root_page_id key true in
    let plain : ltb 1024 (length new.value) ≡ false = ground (arith, short) in
    Ends-and_then (on_pages walk t) _
      (Ends-on_pages walk t (
        find_leaf_page-Found true limit n fuel key t.root_page_id leaf_id leaf t.bm h room leads
          enough))
      λ found t1 f.
        let p = found.0 in
        let held = f.pages.holding in
        let p_holds = Holds-content p (raw_leaf vs) (rw (held.shown) holds) in
        let p_own : get_page_id p ≡ leaf_id =
          sym (content-page_id p) ∙ ap get_page_id held.shown ∙ own in
        let (q, freed, written, q_holds, q_leaf, kind, id, none_freed) =
          write_leaf_fits t1.tx_mgr new p vs hn p_holds is_leaf
            (ap (λ m. has_conflict m new vs) f.manager ∙ apart) fit in
        rw (plain, written, none_freed inline)
          (finish_write-Puts limit leaf_id (put new vs) p q found.1 new t t1 held.use_more held.same
            f.root f.manager p_own (id ∙ p_own) kind q_holds)
