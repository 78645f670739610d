-- ===== src/Tree/Link.antt =====
-- A round of createOverflowChain: the page before is linked to the new one and let go.
use ryu_db.Base.{
  ℕ, ◌<◌, ◌^◌, ◌≡◌, ◌≢◌, refl, sym, ◌∙◌, arith, true, false, Option, none, some, List, [], ◌∷◌,
  Bytes, ◌==◌, ==_iff,
}
use ryu_db.Base.State.{Ends, Ends-and_then, Ends-imp, ended}
use ryu_db.Page.{Page, set_next_overflow_page_id, get_page_id}
use ryu_db.Buffer.{BufferManager}
use ryu_db.Buffer.View.{content, view}
use ryu_db.Buffer.Pins.{count, IsUsing}
use ryu_db.Tree.Pages.{store, unpin}
use ryu_db.Tree.Held.{store-Stored, unpin-LetGo}
use ryu_db.Tree.FreeStack.{FreeStack, IsFree-view}
use ryu_db.Tree.Chunk.{HoldsChunk, set_next-HoldsChunk}
use ryu_db.Tree.Overflow.{link_previous}

-- The page before, where there is one, is in use.
abbrev pub held_by : Option (ℕ × Page) → List ℕ
held_by none = []
held_by (some (id, p)) = id ∷ []

-- With the pages that were in use before the chain was begun.
abbrev pub holding : Option (ℕ × Page) → List ℕ → List ℕ
holding none base = base
holding (some (id, p)) base = id ∷ base

-- It holds a part of the value, and is neither the meta page nor on the stack of free pages.
abbrev pub IsPrevious : Option (ℕ × Page) → Bytes → List ℕ → (ℕ → Option Page) → Type 0
IsPrevious none part ids v = Unit {0}
IsPrevious (some (id, p)) part ids v =
    (v id ≡ some (content p)) × HoldsChunk part 0 id p × (id ≢ 0) × (count id ids ≡ 0)

abbrev pub IsLinked : Option (ℕ × Page) → ℕ → (ℕ → Option Page) → Type 0
IsLinked none new v = Unit {0}
IsLinked (some (id, p)) new v = v id ≡ some (content (set_next_overflow_page_id new p))

-- The order in which pages are held does not matter.
IsUsing-count :
    (limit : ℕ) (held held' : List ℕ) (b : BufferManager)
    → ((j : ℕ) → count j held' ≡ count j held)
    → IsUsing limit held b
    → IsUsing limit held' b
IsUsing-count limit held held' b same h = record {
  pool = h.pool;
  pins = λ j g e. h.pins j g e ∙ sym (same j);
  there = λ j used. h.there j λ none_held. used (same j ∙ none_held);
  writes = h.writes;
  size = h.size;
}

-- Pages that are not on the stack do not matter to it.
pub FreeStack-apart :
    (v w : ℕ → Option Page) (root : ℕ) (ids : List ℕ)
    → FreeStack v root ids
    → w 0 ≡ v 0
    → ((j : ℕ) → j ≢ 0 → count j ids ≢ 0 → w j ≡ v j)
    → FreeStack w root ids
FreeStack-apart v w root ids st at_meta same = record {
  meta = st.meta;
  shown = at_meta ∙ st.shown;
  root_id = st.root_id;
  free = IsFree-view v w _ ids st.free same;
}

pub record Links (limit : ℕ) (base : List ℕ) (prev : Option (ℕ × Page)) (new : ℕ)
    (b b' : BufferManager) : Type 0 where
  pub use_new : IsUsing limit (new ∷ base) b'
  pub linked : IsLinked prev new (view b')
  pub others : (j : ℕ) → count j (held_by prev) ≡ 0 → view b' j ≡ view b j

pub link_previous-Links :
    (limit new : ℕ) (part : Bytes) (prev : Option (ℕ × Page)) (ids base : List ℕ)
    (b : BufferManager)
    → IsUsing limit (new ∷ holding prev base) b
    → IsPrevious prev part ids (view b)
    → new < 2 ^ 32
    → Ends (λ _. Links limit base prev new b) (link_previous prev new b)
link_previous-Links limit new part none ids base b h before small =
    ended tt b (record { use_new = h; linked = tt; others = λ j apart. refl })
link_previous-Links limit new part (some (id, p)) ids base b h (shown, held, real, apart) small =
    let q = set_next_overflow_page_id new p in
    let next = set_next-HoldsChunk part 0 new id p small held in
    Ends-and_then (store id q b) (λ s b1. unpin (get_page_id q) true b1)
      (store-Stored limit (new ∷ id ∷ base) id q b h (ground arith) next.size)
      λ u b1 s. rw (next.own) (
        Ends-imp (unpin id true b1)
          (unpin-LetGo limit (new ∷ base) id b1 (
            IsUsing-count limit (new ∷ id ∷ base) (id ∷ new ∷ base) b1 (λ j. omega arith)
              s.use_same))
          λ v b2 l.
            let here : (id == id) ≡ true = (==_iff id id).1 refl in
            record {
              use_new = l.use_less;
              linked = l.same id ∙ s.shown id ∙ (rw here refl);
              others = λ j ne.
                  let other : (id == j) ≡ false = ground (arith, ne) in
                  l.same j ∙ s.shown j ∙ (rw other refl);
            })
