-- ===== src/Tree/KeepValue.antt =====
-- createOverflowChain makes a chain that holds the value, and readOverflowChain reads it back.
use mathlib.Core.Path.{subst}
use ryu_db.Base.{
  ℕ, ◌+◌, ◌≤◌, ◌<◌, ◌^◌, ◌≡◌, ◌≢◌, refl, sym, ap, ◌∙◌, arith, Option, none, some, List, [], ◌∷◌,
  Bytes, length, ◌==◌, ==_iff, if◌then◌else◌, ok, inl, inr, Bool-cases,
}
use ryu_db.Base.State.{Ends, Ends-and_then, ended}
use ryu_db.Page.{Page}
use ryu_db.Buffer.{BufferManager}
use ryu_db.Buffer.View.{content, view}
use ryu_db.Buffer.Pins.{count, IsUsing}
use ryu_db.Tree.FreeStack.{FreeStack}
use ryu_db.Tree.Allocate.{Idle}
use ryu_db.Tree.CreateChain.{EndsAt}
use ryu_db.Tree.KeepChain.{create_loop-Chains}
use ryu_db.Tree.Chain.{IsFresh}
use ryu_db.Tree.Overflow.{create_loop, create_overflow_chain, read_overflow_chain}
use ryu_db.Tree.ReadChain.{IsChain, metadata_of}
use ryu_db.Tree.ReadHeld.{IsIdle, read_overflow_chain-Reading}

-- The metadata name a chain of pages that were free or not there, which can be read, whole.
pub record Keeps (limit root : ℕ) (base : List ℕ) (value : Bytes) (ids : List ℕ) (b : BufferManager)
    (metadata : Bytes) (b' : BufferManager) : Type 0 where
  pub use_base : IsUsing limit base b'
  pub left : List ℕ
  pub stack : FreeStack (view b') root left
  pub less : (j : ℕ) → count j ids ≡ 0 → count j left ≡ 0
  pub first : ℕ
  pub pages : ℕ
  pub few : pages ≤ length value
  pub small : first < 2 ^ 32
  pub names : metadata ≡ metadata_of first value
  pub chain :
      (w : ℕ → Option Page)
      → ((j : ℕ) → j ≢ 0 → IsFresh ids (view b) j → w j ≡ view b' j)
      → IsChain w pages first value
  pub read : (fuel : ℕ) → pages ≤ fuel → (read_overflow_chain fuel metadata b').0 ≡ ok value
  pub others : (j : ℕ) → j ≢ 0 → count j ids ≡ 0 → view b j ≢ none → view b' j ≡ view b j

-- A page in use is neither free nor away.
pub fresh_unused :
    (limit : ℕ) (base ids : List ℕ) (b : BufferManager) (j : ℕ)
    → IsUsing limit base b
    → Idle base ids
    → IsFresh ids (view b) j
    → count j base ≡ 0
fresh_unused limit base ids b j h idle fresh = elim (Bool-cases (count j base == 0)) [
  | inl unused ↦ (==_iff _ _).0 unused
  | inr used ↦ elim (Bool-cases (count j ids == 0)) [
    | inl off ↦
        let (f, found) = h.there j (ground (arith, used)) in
        let shown : view b j ≡ some (content f.page) = rw found refl in
        absurd (cc (shown, fresh ((==_iff _ _).0 off)))
    | inr on ↦ idle j (ground (arith, on))
  ]
]

-- The view without the pages in use.
abbrev unused_view : List ℕ → BufferManager → ℕ → Option Page
unused_view base b j = if count j base == 0 then view b j else none

unused_view-IsIdle : (base : List ℕ) (b : BufferManager) → IsIdle base (unused_view base b) b
unused_view-IsIdle base b j p e = elim (Bool-cases (count j base == 0)) [
  | inl unused ↦ (rw unused at e, (==_iff _ _).0 unused)
  | inr used ↦ absurd (cc (rw used at e))
]

Keeps-made :
    (limit root first pages : ℕ) (base : List ℕ) (value : Bytes) (ids left : List ℕ)
    (b b' : BufferManager)
    → IsUsing limit base b
    → IsUsing limit base b'
    → 2 + length base < limit
    → Idle base ids
    → FreeStack (view b') root left
    → ((j : ℕ) → count j ids ≡ 0 → count j left ≡ 0)
    → first < 2 ^ 32
    → length value < 2 ^ 32
    → pages ≤ length value
    → ((w : ℕ → Option Page)
        → ((j : ℕ) → j ≢ 0 → IsFresh ids (view b) j → w j ≡ view b' j)
        → IsChain w pages first value)
    → ((j : ℕ) → j ≢ 0 → count j ids ≡ 0 → view b j ≢ none → view b' j ≡ view b j)
    → Keeps limit root base value ids b (metadata_of first value) b'
Keeps-made limit root first pages base value ids left b b' h h' room idle st less small_id small few
      chain others =
    record {
      use_base = h';
      left = left;
      stack = st;
      less = less;
      first = first;
      pages = pages;
      few = few;
      small = small_id;
      names = refl;
      chain = chain;
      read = λ fuel enough.
          let seen : IsChain (unused_view base b') pages first value =
            chain (unused_view base b')
              λ j nz fresh. rw (fresh_unused limit base ids b j h idle fresh) refl in
          let r =
            read_overflow_chain-Reading limit base (unused_view base b') pages fuel first value b'
              h' (omega (arith, room)) (unused_view-IsIdle base b') seen enough small_id small in
          ap (λ k. k.0) r.is_ok ∙ ap ok r.holds.whole;
      others = others;
    }

-- On a well-formed pool that uses the pages `base`, where no write fails and there is room for three
-- more, and whose ids from `end` on are not pages, createOverflowChain of a value, where `end` and the
-- length of the value are together below 2^32, succeeds: its metadata name a chain that holds the
-- value, and readOverflowChain of them returns it, with fuel for the pages of the chain, which are no
-- more than the bytes, and were free or not there. The same pages are in use, the stack of free pages
-- is well-formed, and no page has changed but the meta page, those that were on the stack, and new
-- ones. The meta page and those on the stack are not in use.
pub create_overflow_chain-Keeps :
    (limit root end : ℕ) (base : List ℕ) (value : Bytes) (ids : List ℕ) (b : BufferManager)
    → IsUsing limit base b
    → 2 + length base < limit
    → count 0 base ≡ 0
    → Idle base ids
    → FreeStack (view b) root ids
    → EndsAt end (view b)
    → end + length value < 2 ^ 32
    → Ends (Keeps limit root base value ids b) (create_overflow_chain value b)
unfolding create_overflow_chain
create_overflow_chain-Keeps limit root end base [] ids b h room real idle st ends small =
    ended _ b (
      Keeps-made limit root 0 0 base [] ids ids b b h h room idle st (λ j off. off) (omega arith)
        (omega arith) (omega arith) (λ w agrees. (refl, refl)) λ j nz off there. refl)
create_overflow_chain-Keeps limit root end base (x ∷ xs) ids b h room real idle st ends small =
    let value : Bytes = x ∷ xs in
    Ends-and_then (create_loop (length value) value 0 none b) _
      (create_loop-Chains (length value) limit root end 0 base [] value none ids b h room real idle
        st tt ends small (omega arith) (omega arith))
      λ first b' c.
        let named : c.new ≡ first = sym c.answers in
        ended (metadata_of first value) b' (
          Keeps-made limit root first c.pages base value ids c.left b b' h c.use_base room idle
            c.stack c.less (omega (arith, named, c.small)) (omega (arith, small)) c.few
            (λ w agrees. subst (λ i. IsChain w c.pages i value) named (c.chain w agrees))
            λ j nz off there. c.others j nz refl off there)
