-- ===== src/Tree/WalkWrite.antt =====
-- findLeafPage comes to the leaf that the routing cells lead to, and holds it.
use ryu_db.Base.{Bool, some}
use ryu_db.Base.{
  ℕ, zero, suc, ◌+◌, ◌<◌, ◌≡◌, ◌⊎◌, refl, sym, ap, ◌∙◌, arith, true, false, Bool-cases, List, [],
  ◌∷◌, inl, inr, Bytes, length, ◌==◌, ==_iff,
}
use ryu_db.Base.State.{Ends, Ends-and_then, ended}
use ryu_db.Page.{Page, page_type_leaf, get_page_type}
use ryu_db.Page.Rebuild.{page_cells}
use ryu_db.Pager.Disk.{disk_page}
use ryu_db.Buffer.{BufferManager, fetch_page_for_read, fetch_page_for_write, unpin_page}
use ryu_db.Buffer.View.{content, view}
use ryu_db.Buffer.Pins.{IsUsing}
use ryu_db.Buffer.Use.{Holding, fetch_page_for_read-Holding}
use ryu_db.Buffer.Hold.{fetch_page_for_write-Holding}
use ryu_db.Tree.Pages.{unpin}
use ryu_db.Tree.Held.{LetGo, unpin_page-LetGo, Ends-ignore}
use ryu_db.Tree.Descend.{next_child_id, find_from, reach_leaf, find_leaf_page}
use ryu_db.Tree.Content.{content-field, page_cells-content}
use ryu_db.Tree.Walk.{LeadsTo, LeadsTo-view}

-- A page that was fetched for reading is let go.
pub unpin_read-LetGo :
    (limit : ℕ) (held : List ℕ) (id : ℕ) (b : BufferManager) (c p : Page) (b1 : BufferManager)
    → Holding limit held id b c p b1
    → Ends (λ _. LetGo limit held id b1) (unpin id false b1)
unpin_read-LetGo limit held id b c p b1 h =
    let agrees : (h.frame.is_dirty ≡ true)
        ⊎ (content h.frame.page ≡ content (disk_page b1.file id)) =
      elim (Bool-cases h.frame.is_dirty) [
        | inl dirty ↦ inl dirty
        | inr clean ↦ inr (h.agrees clean)
      ] in
    Ends-ignore (unpin_page id false b1)
      (unpin_page-LetGo limit held id false h.frame b1 h.use_more h.found (inr agrees))

pub record Found (limit leaf_id : ℕ) (leaf : Page) (steps : ℕ) (b : BufferManager)
    (r : Page × List ℕ) (b' : BufferManager) : Type 0 where
  pub holding : Holding limit [] leaf_id b leaf r.0 b'
  pub depth : length r.1 ≡ steps

pub Holding-before :
    {limit : ℕ} {held : List ℕ} {id : ℕ} {b b1 : BufferManager} {c p : Page} {b' : BufferManager}
    → ((j : ℕ) → view b1 j ≡ view b j)
    → Holding limit held id b1 c p b'
    → Holding limit held id b c p b'
Holding-before same h = record {
  frame = h.frame;
  found = h.found;
  is_page = h.is_page;
  shown = h.shown;
  agrees = h.agrees;
  use_more = h.use_more;
  same = λ j. h.same j ∙ same j;
}

reach_leaf-Found :
    (for_write : Bool) (limit id : ℕ) (leaf p : Page) (path : List ℕ) (steps : ℕ)
    (b0 b b1 : BufferManager)
    → 0 < limit
    → view b id ≡ some leaf
    → length path ≡ steps
    → ((j : ℕ) → view b j ≡ view b0 j)
    → Holding limit [] id b leaf p b1
    → Ends (Found limit id leaf steps b0) (reach_leaf for_write id p path b1)
unfolding fetch_page_for_write
reach_leaf-Found false limit id leaf p path steps b0 b b1 room shown e before hp =
    ended (p, path) b1 (record { holding = Holding-before before hp; depth = e })
reach_leaf-Found true limit id leaf p path steps b0 b b1 room shown e before hp =
    Ends-and_then (unpin id false b1) _ (unpin_read-LetGo limit [] id b leaf p b1 hp) λ u b2 l.
      Ends-and_then (fetch_page_for_write id page_type_leaf b2) _
        (fetch_page_for_write-Holding limit [] id page_type_leaf b2 leaf l.use_less refl room
          (l.same id ∙ hp.same id ∙ shown))
        λ q b3 hq.
          ended (q, path) b3
            (record {
              holding = Holding-before (λ j. l.same j ∙ hp.same j ∙ before j) hq;
              depth = e;
            })

find_from-Found :
    (for_write : Bool) (limit n fuel : ℕ) (key : Bytes) (id leaf_id : ℕ) (leaf : Page)
    (path : List ℕ) (steps : ℕ) (b0 b : BufferManager)
    → IsUsing limit [] b
    → 0 < limit
    → LeadsTo (view b) key n id leaf_id leaf
    → n < fuel
    → n + length path ≡ steps
    → ((j : ℕ) → view b j ≡ view b0 j)
    → Ends (Found limit leaf_id leaf steps b0) (find_from fuel key for_write id path b)
unfolding find_from
find_from-Found for_write limit n zero key id leaf_id leaf path steps b0 b h room leads enough e
      before =
    absurd (omega (arith, enough))
find_from-Found for_write limit zero (suc fuel) key id leaf_id leaf path steps b0 b h room
      (here, shown, kind) enough e before =
    rw⁻¹ here (
      Ends-and_then (fetch_page_for_read id page_type_leaf b) _
        (fetch_page_for_read-Holding limit [] id page_type_leaf b leaf h refl room shown)
        λ p b1 hp.
          let is_leaf : get_page_type p ≡ page_type_leaf =
            sym (content-field p 20 1 (omega arith)) ∙ ap get_page_type hp.shown ∙ kind in
          let test : (get_page_type p == page_type_leaf) ≡ true = (==_iff _ _).1 is_leaf in
          rw test (
            reach_leaf-Found for_write limit id leaf p path steps b0 b b1 room shown
              (omega (arith, e)) before hp))
find_from-Found for_write limit (suc n) (suc fuel) key id leaf_id leaf path steps b0 b h room
      (p, ks, shown, is_page, kind, cells, real, further) enough e before =
    Ends-and_then (fetch_page_for_read id page_type_leaf b) _
      (fetch_page_for_read-Holding limit [] id page_type_leaf b p h refl room shown)
      λ q b1 hq.
        let kind_same : get_page_type q ≡ get_page_type p =
          sym (content-field q 20 1 (omega arith)) ∙ ap get_page_type hq.shown in
        let test : (get_page_type q == page_type_leaf) ≡ false = ground (arith, kind_same, kind) in
        let cells_same : page_cells q ≡ page_cells p =
          page_cells-content q (rw (hq.shown) is_page) ∙ ap page_cells hq.shown in
        let go_on : (next_child_id key ks == 0) ≡ false = ground (arith, real) in
        rw (test, cells_same, cells)
          (Ends-and_then (unpin id false b1) _ (unpin_read-LetGo limit [] id b p q b1 hq) λ u b2 l.
            let same = λ (j : ℕ). l.same j ∙ hq.same j in
            rw go_on (
              find_from-Found for_write limit n fuel key (next_child_id key ks) leaf_id leaf
                (id ∷ path) steps b0 b2 l.use_less room
                (LeadsTo-view (view b) (view b2) key n _ leaf_id leaf same further)
                (omega (arith, enough)) (omega (arith, e)) (λ j. same j ∙ before j)))

pub find_leaf_page-Found :
    (for_write : Bool) (limit n fuel : ℕ) (key : Bytes) (root leaf_id : ℕ) (leaf : Page)
    (b : BufferManager)
    → IsUsing limit [] b
    → 0 < limit
    → LeadsTo (view b) key n root leaf_id leaf
    → n < fuel
    → Ends (Found limit leaf_id leaf n b) (find_leaf_page fuel root key for_write b)
unfolding find_leaf_page
find_leaf_page-Found for_write limit n fuel key root leaf_id leaf b h room leads enough =
    find_from-Found for_write limit n fuel key root leaf_id leaf [] n b b h room leads enough
      (omega arith) (λ j. refl)
