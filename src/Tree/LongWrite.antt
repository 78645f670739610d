-- ===== src/Tree/LongWrite.antt =====
-- Insert of a value that is too long for a leaf, and what FindLatest answers behind it.
use ryu_db.Base.{
  ℕ, ◌+◌, ◌^◌, ◌≤◌, ◌<◌, ◌≡◌, ◌≢◌, refl, sym, ap, ◌∙◌, arith, true, false, Bool-cases, inl, inr,
  Option, none, List, [], ◌∷◌, Bytes, length, ◌==◌, ==_iff, if◌then◌else◌, ok,
}
use ryu_db.Base.State.{Ends, Ends-and_then, Ends-imp}
use ryu_db.Cell.{is_overflow}
use ryu_db.Page.{Page, get_page_id}
use ryu_db.Page.Rebuild.{Holds, cells_size}
use ryu_db.Leaf.Versions.{Version, IsVersion, IsLeaf, raw_leaf, version_key}
use ryu_db.Leaf.Put.{put, put-IsLeaf, newest-put_own}
use ryu_db.Leaf.Inline.{AllInline}
use ryu_db.Leaf.Scan.{has_conflict}
use ryu_db.Leaf.WriteLeaf.{write_leaf_fits}
use ryu_db.Buffer.{BufferManager}
use ryu_db.Buffer.View.{view}
use ryu_db.Buffer.Pins.{count, IsUsing}
use ryu_db.Tree.Content.{Holds-content}
use ryu_db.Tree.Descend.{find_leaf_page}
use ryu_db.Tree.Walk.{LeadsTo}
use ryu_db.Tree.WalkWrite.{find_leaf_page-Found}
use ryu_db.Tree.FreeStack.{FreeStack, FreeStack-view}
use ryu_db.Tree.Link.{FreeStack-apart}
use ryu_db.Tree.Allocate.{Idle}
use ryu_db.Tree.CreateChain.{EndsAt}
use ryu_db.Tree.KeepValue.{Keeps, fresh_unused}
use ryu_db.Tree.ReadWrite.{LeadsTo-end, LeadsTo-leaf}
use ryu_db.Tree.Split.{BTree, on_pages}
use ryu_db.Tree.Insert.{Ends-on_pages}
use ryu_db.Tree.Upsert.{content-page_id, Puts, finish_write-Puts}
use ryu_db.Tree.LongRead.{LeadsTo-sub, find_latest-chain}
use ryu_db.Tree.Ops.{find_latest, move_value, insert, upsert_cell}
use ryu_db.Tree.Moved.{
  cells_size-moved, has_conflict-moved, kept_view, kept_view-here, kept_view-some, move_value-Keeps,
  moved, moved-IsVersion,
}

-- The value can be read, and the free pages are still a stack.
pub record Moves (limit root n : ℕ) (new : Version) (t' : BTree) : Type 0 where
  pub use_none : IsUsing limit [] t'.bm
  pub left : List ℕ
  pub stack : FreeStack (view t'.bm) root left
  pub read :
      (fuel : ℕ)
      → length new.value ≤ fuel
      → n < fuel
      → (find_latest fuel (version_key new) t').0 ≡ ok new.value

moved-Moves :
    (limit root n leaf_id : ℕ) (leaf : Page) (new : Version) (vs : List Version) (ids : List ℕ)
    (b : BufferManager) (metadata : Bytes) (t t' : BTree)
    → IsUsing limit (leaf_id ∷ []) b
    → 3 < limit
    → Idle (leaf_id ∷ []) ids
    → LeadsTo (kept_view ids b) (version_key new) n t.root_page_id leaf_id leaf
    → IsLeaf vs
    → IsVersion (moved 0 new)
    → length new.value < 2 ^ 32
    → (k : Keeps limit root (leaf_id ∷ []) new.value ids b metadata t.bm)
    → Puts limit leaf_id (put (moved k.first new) vs) t t'
    → Moves limit root n new t'
moved-Moves limit root n leaf_id leaf new vs ids b metadata t t' h room idle leads is_leaf hn small
      k p =
    let new' = moved k.first new in
    let hn' = moved-IsVersion k.first new hn in
    let (at_end, kind) =
      LeadsTo-end (kept_view ids b) (version_key new) n t.root_page_id leaf_id leaf leads in
    let (real, off, shown) = kept_view-some ids b leaf_id leaf at_end in
    let way : LeadsTo (view t.bm) (version_key new) n t.root_page_id leaf_id leaf =
      LeadsTo-sub (kept_view ids b) (view t.bm) (version_key new) n t.root_page_id leaf_id leaf
        (λ j q e.
          let (nz, o, there) = kept_view-some ids b j q e in
          k.others j nz o (λ gone. cc (gone, there)) ∙ there)
        leads in
    let apart : (j : ℕ) → j ≢ leaf_id → view t'.bm j ≡ view t.bm j = λ j ne.
      let other : (leaf_id == j) ≡ false = ground (arith, ne) in p.shown j ∙ (rw other refl) in
    let seen : ℕ → Option Page = λ j. if leaf_id == j then none else view t'.bm j in
    record {
      use_none = p.use_none;
      left = k.left;
      stack =
          FreeStack-apart (view t.bm) (view t'.bm) root k.left k.stack (apart 0 (λ e. real (sym e)))
            λ j nz on. apart j λ e. on (ap (λ i. count i k.left) e ∙ k.less leaf_id off);
      read = λ fuel enough deep.
          find_latest-chain limit n k.pages fuel k.first new.user new.tx leaf_id p.leaf
            (put new' vs) new' new.value seen t' hn.id p.use_none (omega (arith, room))
            (rw (p.root) (
              LeadsTo-leaf (view t.bm) (view t'.bm) (version_key new) n t.root_page_id leaf_id leaf
                p.leaf p.shown p.is_leaf way))
            deep p.holds (put-IsLeaf new' vs hn' is_leaf)
            (newest-put_own t'.tx_mgr new' hn' vs is_leaf) refl (unfold is_overflow in refl) refl
            (λ j q e. elim (Bool-cases (leaf_id == j)) [
              | inl here ↦ absurd (cc (rw here at e))
              | inr other ↦ (rw other at e, rw other refl)
            ])
            (k.chain seen λ j nz fresh.
              let unused = fresh_unused limit (leaf_id ∷ []) ids b j h idle fresh in
              let other : (leaf_id == j) ≡ false = ground (arith, unused) in
              rw other (apart j (ground (arith, other))))
            (omega (arith, k.few, enough)) k.small small;
    }

-- On a well-formed pool where no page is in use, no write fails and there is room for four, whose ids
-- from `end` on are not pages, Insert of a value of more than 1024 bytes, by which no version on its
-- leaf conflicts and for whose metadata the leaf has room, succeeds; then FindLatest answers the
-- transaction that wrote it with the whole value, with fuel for the bytes and the internal pages, no
-- page is in use, and the free pages are a stack. The leaf and the internal pages above it are
-- neither the meta page nor free, the leaf, to which the routing cells lead, holds its own id and
-- sorted versions that hold their values, the fuel of Insert is above the number of the internal
-- pages, and `end` and the length of the value are together below 2^32. No user key of a version has
-- a zero byte.
pub find_latest-insert_long :
    (limit root end n fuel leaf_id : ℕ) (leaf : Page) (new : Version) (vs : List Version)
    (ids : List ℕ) (t : BTree)
    → IsUsing limit [] t.bm
    → 3 < limit
    → FreeStack (view t.bm) root ids
    → EndsAt end (view t.bm)
    → end + length new.value < 2 ^ 32
    → LeadsTo (kept_view ids t.bm) (version_key new) n t.root_page_id leaf_id leaf
    → n < fuel
    → get_page_id leaf ≡ leaf_id
    → Holds leaf (raw_leaf vs)
    → IsLeaf vs
    → AllInline vs
    → IsVersion (moved 0 new)
    → 1024 < length new.value
    → has_conflict t.tx_mgr new vs ≡ false
    → 32 + cells_size (raw_leaf (put (moved 0 new) vs)) ≤ 4096
    → Ends (λ _. Moves limit root n new) (insert fuel (version_key new) new.value t)
unfolding insert upsert_cell
find_latest-insert_long limit root end n fuel leaf_id leaf new vs ids t h room st ends small leads
      enough own holds is_leaf inline hn long no_conflict fit =
    let key = version_key new in
    let walk = find_leaf_page fuel t.root_page_id key true in
    let (at_end, kind) = LeadsTo-end (kept_view ids t.bm) key n t.root_page_id leaf_id leaf leads in
    let (real, off, shown) = kept_view-some ids t.bm leaf_id leaf at_end in
    let way : LeadsTo (view t.bm) key n t.root_page_id leaf_id leaf =
      LeadsTo-sub (kept_view ids t.bm) (view t.bm) key n t.root_page_id leaf_id leaf
        (λ j q e. (kept_view-some ids t.bm j q e).2) leads in
    let idle : Idle (leaf_id ∷ []) ids = λ j on. elim (Bool-cases (leaf_id == j)) [
      | inl e ↦
          let here : leaf_id ≡ j = (==_iff leaf_id j).0 e in
          absurd (on (ap (λ k. count k ids) (sym here) ∙ off))
      | inr ne ↦ rw ne refl
    ] in
    Ends-and_then (on_pages walk t) _
      (Ends-on_pages walk t (
        find_leaf_page-Found true limit n fuel key t.root_page_id leaf_id leaf t.bm h
          (omega (arith, room)) way enough))
      λ found t1 f.
        let p = found.0 in
        let held = f.pages.holding in
        let p_holds = Holds-content p (raw_leaf vs) (rw (held.shown) holds) in
        let p_own : get_page_id p ≡ leaf_id =
          sym (content-page_id p) ∙ ap get_page_id held.shown ∙ own in
        let st1 = FreeStack-view (view t.bm) (view t1.bm) root ids st held.same in
        Ends-and_then (on_pages (move_value new.value 0) t1) _
          (Ends-on_pages (move_value new.value 0) t1 (
            move_value-Keeps limit root end (leaf_id ∷ []) new.value ids t1.bm held.use_more
              (omega (arith, room)) (ground (arith, real)) idle st1
              (λ j far. held.same j ∙ ends j far) small long))
          λ m t2 o.
            let k = o.pages.0 in
            let new' = moved k.first new in
            let (q, freed, written, q_holds, q_leaf, kind', id, none_freed) =
              write_leaf_fits t2.tx_mgr new' p vs (moved-IsVersion k.first new hn) p_holds is_leaf
                (has_conflict-moved t2.tx_mgr k.first new vs
                  ∙ ap (λ g. has_conflict g new vs) (o.manager ∙ f.manager)
                  ∙ no_conflict)
                (omega (arith, fit, cells_size-moved k.first new vs)) in
            rw (o.pages.1, k.names, written, none_freed inline)
              (Ends-imp _
                (finish_write-Puts limit leaf_id (put new' vs) p q found.1 new' t2 t2 k.use_base
                  (λ j. refl) refl refl p_own (id ∙ p_own) kind' q_holds)
                λ u t3 r.
                  moved-Moves limit root n leaf_id leaf new vs ids t1.bm m.0 t2 t3 held.use_more
                    room idle
                    (rw (o.root, f.root)
                      (LeadsTo-sub (kept_view ids t.bm) (kept_view ids t1.bm) key n t.root_page_id
                        leaf_id leaf
                        (λ j g e.
                          let (nz, o', there) = kept_view-some ids t.bm j g e in
                          kept_view-here ids t1.bm j g nz o' (held.same j ∙ there))
                        leads))
                    is_leaf hn (omega (arith, small)) k r)
