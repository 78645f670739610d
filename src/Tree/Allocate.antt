-- ===== src/Tree/Allocate.antt =====
-- allocatePage pops the stack of free pages, and adds a page to the file where it is empty.
use ryu_db.Base.{
  ℕ, suc, ◌<◌, ◌^◌, ◌≡◌, ◌≢◌, sym, ap, ◌∙◌, arith, true, false, inl, inr, none, List, [], ◌∷◌,
  length, ◌==◌, ==_iff,
}
use ryu_db.Base.State.{Ends, Ends-and_then, Ends-imp}
use ryu_db.Page.{Page, meta_page_id, page_type_meta, get_first_free_page_id}
use ryu_db.Buffer.{BufferManager, fetch_page_for_write}
use ryu_db.Buffer.View.{content, view}
use ryu_db.Buffer.Pins.{count, IsUsing}
use ryu_db.Buffer.Hold.{fetch_page_for_write-Holding}
use ryu_db.Tree.Pages.{unpin}
use ryu_db.Tree.Held.{unpin-LetGo}
use ryu_db.Tree.Content.{content-field}
use ryu_db.Tree.FreeList.{allocate_with, allocate_page}
use ryu_db.Tree.FreeStack.{FreeStack, IsFree-view, FreeStack-view, Holding-size, Ends-deferring}
use ryu_db.Tree.Pop.{Allocates, append-Allocates, pop-Allocates}

-- The pages on the stack are not in use.
abbrev pub Idle : List ℕ → List ℕ → Type 0
Idle held ids = (j : ℕ) → count j ids ≢ 0 → count j held ≡ 0

allocate_with-Allocates :
    (limit : ℕ) (held : List ℕ) (root mode k : ℕ) (ids : List ℕ) (m : Page) (b : BufferManager)
    (st : FreeStack (view b) root ids)
    → IsUsing limit (0 ∷ held) b
    → suc (length held) < limit
    → Idle held ids
    → content m ≡ st.meta
    → length m.bytes ≡ 4096
    → mode < 256
    → view b k ≡ none
    → k < 2 ^ 32
    → Ends (Allocates limit (0 ∷ held) root ids mode b) (allocate_with mode m b)
allocate_with-Allocates limit held root mode k [] m b st h room idle same size few absent small =
    let empty : (get_first_free_page_id m == 0) ≡ true =
      (==_iff _ _).1
        (sym (content-field m 36 4 (omega arith)) ∙ ap get_first_free_page_id same ∙ st.free) in
    rw empty (append-Allocates limit (0 ∷ held) root mode k b h st few absent small)
allocate_with-Allocates limit held root mode k (x ∷ xs) m b st h room idle same size few absent
      small =
    let first : get_first_free_page_id m ≡ x =
      sym (content-field m 36 4 (omega arith)) ∙ ap get_first_free_page_id same ∙ st.free.0 in
    let full : (get_first_free_page_id m == 0) ≡ false = ground (arith, first, st.free.1) in
    rw full
      (pop-Allocates limit held root mode x xs m b st h room (idle x (ground arith)) same size few)

-- On a well-formed pool that uses the pages `held`, where no write fails, there is room for two more
-- and an id of 32 bits that is not a page, allocatePage of a page type of 8 bits gives the top of the
-- stack of free pages, or a page that was not there where the stack is empty. The page has the type,
-- holds its own id, was not in use and is not the meta page; the rest of the stack stays, and no page
-- but this and the meta page has changed. The meta page and those on the stack are not in use.
pub allocate_page-Allocates :
    (limit : ℕ) (held : List ℕ) (root mode k : ℕ) (ids : List ℕ) (b : BufferManager)
    → IsUsing limit held b
    → suc (length held) < limit
    → count 0 held ≡ 0
    → FreeStack (view b) root ids
    → Idle held ids
    → mode < 256
    → view b k ≡ none
    → k < 2 ^ 32
    → Ends (Allocates limit held root ids mode b) (allocate_page mode b)
unfolding allocate_page
allocate_page-Allocates limit held root mode k ids b h room no_meta st idle few absent small =
    Ends-and_then (fetch_page_for_write meta_page_id page_type_meta b) _
      (fetch_page_for_write-Holding limit held 0 page_type_meta b st.meta h no_meta
        (omega (arith, room)) st.shown)
      λ m b1 hm.
        let st1 : FreeStack (view b1) root ids = record {
          meta = st.meta;
          shown = hm.same 0 ∙ st.shown;
          root_id = st.root_id;
          free =
              IsFree-view (view b) (view b1) (get_first_free_page_id st.meta) ids st.free
                λ j nz on. hm.same j;
        } in
        Ends-deferring (allocate_with mode m) (unpin meta_page_id true) b1
          (allocate_with-Allocates limit held root mode k ids m b1 st1 hm.use_more room idle
            hm.shown (Holding-size hm) few (hm.same k ∙ absent) small)
          λ id b2 a.
            Ends-imp (unpin meta_page_id true b2) (unpin-LetGo limit held 0 b2 a.use_same) λ u b3 l.
              record {
                use_same = l.use_less;
                left = a.left;
                stack = FreeStack-view (view b2) (view b3) root a.left a.stack l.same;
                taken = elim a.taken [
                  | inl top ↦ inl top
                  | inr (e, e', gone) ↦ inr (e, e', sym (hm.same id) ∙ gone)
                ];
                real = a.real;
                small = a.small;
                unused = omega (arith, a.unused);
                fresh = a.fresh;
                shown = l.same id ∙ a.shown;
                kind = a.kind;
                own = a.own;
                others = λ j nz ne. l.same j ∙ a.others j nz ne ∙ hm.same j;
                once = a.once;
                near = λ l above. a.near l λ j far. hm.same j ∙ above j far;
              }
