-- ===== src/Tree/Walk.antt =====
-- findLeafPage walks to the leaf that the routing cells lead to.
use ryu_db.Base.{
  both_branches, ℕ, zero, suc, ◌+◌, ◌≤◌, ◌<◌, ◌≡◌, ◌≢◌, refl, sym, ap, ◌∙◌, arith, Bool, true,
  false, Option, none, some, List, [], ◌∷◌, inr,
}
use ryu_db.Base.{
  Bytes, length, ◌==◌, ==_iff, if◌then◌else◌, Result, ok, err, panic, child_pointer_zero,
}
use ryu_db.Base
use ryu_db.Base.State.{Op, and_then}
use ryu_db.Cell.{KeyCell}
use ryu_db.Page.{Page, page_type_leaf, get_page_type}
use ryu_db.Page.Shape.{IsPage}
use ryu_db.Page.Rebuild.{page_cells}
use ryu_db.Buffer.{BufferManager, fetch_page_for_read, unpin_page}
use ryu_db.Buffer.View.{content, view}
use ryu_db.Buffer.Ready.{IsReady, Reads, fetch_page_for_read-Reads}
use ryu_db.Tree.Pages.{raise, unpin}
use ryu_db.Tree.Descend.{key_cells, next_child_id, reach_leaf, find_from, find_leaf_page}
use ryu_db.Tree.Content.{content-field, page_cells-content}

-- From the page `id` the routing cells lead over `n` internal pages to the leaf `leaf_id`.
abbrev pub LeadsTo : (ℕ → Option Page) → Bytes → ℕ → ℕ → ℕ → Page → Type 0
LeadsTo v key zero id leaf_id leaf =
    (id ≡ leaf_id) × (v id ≡ some leaf) × (get_page_type leaf ≡ page_type_leaf)
LeadsTo v key (suc n) id leaf_id leaf =
    (p : Page) × (ks : List KeyCell) × (v id ≡ some p)
    × IsPage p
    × (get_page_type p ≢ page_type_leaf)
    × (Base.◌>>=◌ (page_cells p) key_cells ≡ ok ks)
    × (next_child_id key ks ≢ 0)
    × LeadsTo v key n (next_child_id key ks) leaf_id leaf

pub LeadsTo-view :
    (v w : ℕ → Option Page) (key : Bytes) (n id leaf_id : ℕ) (leaf : Page)
    → ((j : ℕ) → w j ≡ v j)
    → LeadsTo v key n id leaf_id leaf
    → LeadsTo w key n id leaf_id leaf
LeadsTo-view v w key zero id leaf_id leaf same (e, shown, kind) = (e, same id ∙ shown, kind)
LeadsTo-view v w key (suc n) id leaf_id leaf same
      (p, ks, shown, is_page, kind, cells, real, further) =
    (
      p,
      ks,
      same id ∙ shown,
      is_page,
      kind,
      cells,
      real,
      LeadsTo-view v w key n (next_child_id key ks) leaf_id leaf same further,
    )

-- The leaf is returned, in use, with the path; where it is let go, no page has changed.
pub record Finds (leaf_id : ℕ) (leaf : Page) (steps : ℕ) (b : BufferManager)
    (r : Result (Page × List ℕ) × BufferManager) : Type 0 where
  pub page : Page
  pub path : List ℕ
  pub found : r.0 ≡ ok (page, path)
  pub is_leaf : content page ≡ leaf
  pub depth : length path ≡ steps
  pub ready : IsReady (unpin_page leaf_id false r.1).1
  pub same : (j : ℕ) → view (unpin_page leaf_id false r.1).1 j ≡ view b j

leaf_found :
    (id : ℕ) (leaf : Page) (path : List ℕ) (b : BufferManager) (r : Result Page × BufferManager)
    (below : Page → Op BufferManager (Page × List ℕ)) (h : Reads id b r)
    → view b id ≡ some leaf
    → get_page_type leaf ≡ page_type_leaf
    → Finds id leaf (length path) b (
        and_then r λ p b1.
          if get_page_type p == page_type_leaf then reach_leaf false id p path b1 else below p b1)
leaf_found id leaf path b (ok p, b1) below h shown kind =
    let same : content p ≡ leaf = cc (h.got, h.shown, shown) in
    let is_leaf : get_page_type p ≡ page_type_leaf =
      sym (content-field p 20 1 (omega arith)) ∙ ap get_page_type same ∙ kind in
    let test : (get_page_type p == page_type_leaf) ≡ true = (==_iff _ _).1 is_leaf in
    rw test (record {
      page = p;
      path = path;
      found = refl;
      is_leaf = same;
      depth = refl;
      ready = h.ready;
      same = h.same;
    })
leaf_found id leaf path b (err x, b1) below h shown kind = absurd (cc h.got)
leaf_found id leaf path b (panic, b1) below h shown kind = absurd (cc h.got)

internal_passed :
    (id : ℕ) (p : Page) (ks : List KeyCell) (path : List ℕ) (b : BufferManager)
    (r : Result Page × BufferManager) (k : List KeyCell → Op BufferManager (Page × List ℕ))
    (h : Reads id b r)
    → view b id ≡ some p
    → IsPage p
    → get_page_type p ≢ page_type_leaf
    → Base.◌>>=◌ (page_cells p) key_cells ≡ ok ks
    → (and_then r λ q b1.
        if get_page_type q == page_type_leaf
        then reach_leaf false id q path b1
        else (and_then
            (raise (Base.◌>>=◌ (page_cells q) key_cells) b1)
            λ l b2. and_then (unpin id false b2) λ done. k l))
      ≡ k ks (unpin_page id false r.1).1
internal_passed id p ks path b (ok q, b1) k h shown is_page kind cells =
    let same : content q ≡ p = cc (h.got, h.shown, shown) in
    let kind_same : get_page_type q ≡ get_page_type p =
      sym (content-field q 20 1 (omega arith)) ∙ ap get_page_type same in
    let test : (get_page_type q == page_type_leaf) ≡ false = ground (arith, kind_same, kind) in
    let cells_same : page_cells q ≡ page_cells p =
      page_cells-content q (rw same is_page) ∙ ap page_cells same in
    rw (test, cells_same, cells, h.let_go) refl
internal_passed id p ks path b (err x, b1) k h shown is_page kind cells = absurd (cc h.got)
internal_passed id p ks path b (panic, b1) k h shown is_page kind cells = absurd (cc h.got)

Finds-before :
    (leaf_id : ℕ) (leaf : Page) (m n : ℕ) (b b' : BufferManager)
    (r : Result (Page × List ℕ) × BufferManager)
    → m ≡ n
    → ((j : ℕ) → view b' j ≡ view b j)
    → Finds leaf_id leaf m b' r
    → Finds leaf_id leaf n b r
Finds-before leaf_id leaf m n b b' r steps same h = record {
  page = h.page;
  path = h.path;
  found = h.found;
  is_leaf = h.is_leaf;
  depth = h.depth ∙ steps;
  ready = h.ready;
  same = λ j. h.same j ∙ same j;
}

find_from-Finds :
    (n fuel : ℕ) (key : Bytes) (id leaf_id : ℕ) (leaf : Page) (path : List ℕ) (b : BufferManager)
    → IsReady b
    → LeadsTo (view b) key n id leaf_id leaf
    → n < fuel
    → Finds leaf_id leaf (n + length path) b (find_from fuel key false id path b)
unfolding find_from
find_from-Finds n zero key id leaf_id leaf path b h leads enough = absurd (omega (arith, enough))
find_from-Finds zero (suc fuel) key id leaf_id leaf path b h (here, shown, kind) enough =
    let reads = fetch_page_for_read-Reads id page_type_leaf b leaf h shown in
    rw⁻¹ here (
      Finds-before id leaf (length path) (0 + length path) b b _ (omega arith) (λ j. refl)
        (leaf_found id leaf path b (fetch_page_for_read id page_type_leaf b) _ reads shown kind))
find_from-Finds (suc n) (suc fuel) key id leaf_id leaf path b h
      (p, ks, shown, is_page, kind, cells, real, further) enough =
    let r = fetch_page_for_read id page_type_leaf b in
    let reads = fetch_page_for_read-Reads id page_type_leaf b p h shown in
    let b2 = (unpin_page id false r.1).1 in
    let k : List KeyCell → Op BufferManager (Page × List ℕ) = λ l b3.
      if next_child_id key l == 0
      then (err child_pointer_zero, b3)
      else find_from fuel key false (next_child_id key l) (id ∷ path) b3 in
    let go_on : (next_child_id key ks == 0) ≡ false = ground (arith, real) in
    let rest =
      find_from-Finds n fuel key (next_child_id key ks) leaf_id leaf (id ∷ path) b2 reads.ready
        (LeadsTo-view (view b) (view b2) key n _ leaf_id leaf reads.same further)
        (omega (arith, enough)) in
    let done : Finds leaf_id leaf (suc n + length path) b (k ks b2) = rw go_on (
      Finds-before leaf_id leaf (n + suc (length path)) (suc n + length path) b b2 _ (omega arith)
        reads.same rest) in
    rw (internal_passed id p ks path b r k reads shown is_page kind cells) done

-- On a well-formed pool where no page is in use, no write fails and there is room for a page,
-- findLeafPage for reading comes to the leaf to which the routing cells lead, with a path of as many
-- pages as there are internal ones on the way, as long as the fuel is above their number; where the
-- leaf is let go no page has changed, and none is in use again.
pub find_leaf_page-Finds :
    (n fuel : ℕ) (key : Bytes) (root leaf_id : ℕ) (leaf : Page) (b : BufferManager)
    → IsReady b
    → LeadsTo (view b) key n root leaf_id leaf
    → n < fuel
    → Finds leaf_id leaf n b (find_leaf_page fuel root key false b)
unfolding find_leaf_page
find_leaf_page-Finds n fuel key root leaf_id leaf b h leads enough =
    Finds-before leaf_id leaf (n + 0) n b b _ (omega arith) (λ j. refl)
      (find_from-Finds n fuel key root leaf_id leaf [] b h leads enough)
