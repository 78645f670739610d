-- ===== src/Tree/Chain.antt =====
-- A chain of overflow pages as it grows: a page in front of what comes behind it.
use mathlib.Core.Path.{subst}
use ryu_db.Base.{
  ℕ, zero, suc, ◌≤◌, ◌<◌, ◌^◌, ◌≡◌, ◌≢◌, refl, sym, ap, ◌∙◌, arith, true, Option, none, some, List,
  [], ◌∷◌, Bytes, length, ◌==◌, ==_iff, if◌then◌else◌, inl, inr, ltb, Bool-cases, take, drop,
  length-take, length-drop, slice,
}
use ryu_db.Base.State.{Ends, Ends-imp}
use ryu_db.Page.{Page}
use ryu_db.Buffer.{BufferManager}
use ryu_db.Buffer.View.{content, view}
use ryu_db.Buffer.Pins.{count, IsUsing}
use ryu_db.Tree.Pages.{unpin}
use ryu_db.Tree.Held.{unpin-LetGo}
use ryu_db.Tree.FreeStack.{FreeStack, FreeStack-view}
use ryu_db.Tree.Chunk.{HoldsChunk, set_next-HoldsChunk, content-HoldsChunk}
use ryu_db.Tree.Link.{held_by, IsPrevious, IsLinked}
use ryu_db.Tree.CreateChain.{Rounds, IsLinked-view}
use ryu_db.Tree.ReadChain.{IsChain, chunk_of}

-- A page that is not there, or on the stack of free pages.
abbrev pub IsFresh : List ℕ → (ℕ → Option Page) → ℕ → Type 0
IsFresh ids v j = count j ids ≡ 0 → v j ≡ none

-- The rest of the value lies in a chain from `new` on, behind the page before.
pub record Chains (limit root : ℕ) (base : List ℕ) (rest : Bytes) (first : ℕ)
    (prev : Option (ℕ × Page)) (ids : List ℕ) (b : BufferManager) (answer : ℕ) (b' : BufferManager)
    : Type 0 where
  pub use_base : IsUsing limit base b'
  pub left : List ℕ
  pub stack : FreeStack (view b') root left
  pub less : (j : ℕ) → count j ids ≡ 0 → count j left ≡ 0
  pub new : ℕ
  pub real : new ≢ 0
  pub small : new < 2 ^ 32
  pub answers : answer ≡ (if first == 0 then new else first)
  pub pages : ℕ
  pub few : pages ≤ length rest
  pub chain :
      (w : ℕ → Option Page)
      → ((j : ℕ) → j ≢ 0 → IsFresh ids (view b) j → w j ≡ view b' j)
      → IsChain w pages new rest
  pub linked : IsLinked prev new (view b')
  pub others :
      (j : ℕ)
      → j ≢ 0
      → count j (held_by prev) ≡ 0
      → count j ids ≡ 0
      → view b j ≢ none
      → view b' j ≡ view b j

length-chunk : (value : Bytes) → length (take 4060 value) ≡ chunk_of value
unfolding take
length-chunk value = elim (Bool-cases (ltb 4060 (length value))) [
  | inl long ↦ rw long (length-take 4060 value (ground (arith, long)))
  | inr fits ↦
      let all : take 4060 value ≡ value = take_all 4060 value (ground (arith, fits)) in
      rw (fits, all) refl
]
  where
    take_all : (n : ℕ) (xs : Bytes) → length xs ≤ n → take n xs ≡ xs
    take_all zero [] h = refl
    take_all zero (x ∷ xs) h = absurd (omega (arith, h))
    take_all (suc n) [] h = refl
    take_all (suc n) (x ∷ xs) h = ap (λ t. x ∷ t) (take_all n xs (omega (arith, h)))

-- A page in front of a chain.
IsChain-cons :
    (v : ℕ → Option Page) (n new next : ℕ) (value : Bytes) (p : Page)
    → v new ≡ some p
    → HoldsChunk (take 4060 value) next new p
    → new ≢ 0
    → IsChain v n next (drop 4060 value)
    → IsChain v (suc n) new value
IsChain-cons v n new next value p shown h real rest = (
  real,
  (
    p,
    shown,
    ap (λ k. slice p.bytes 36 k) (sym (length-chunk value)) ∙ h.part,
    subst (λ i. IsChain v n i (drop 4060 value)) (sym h.next_id) rest,
  ),
)

not_there : (o : Option Page) → ¬ (o ≢ none) → o ≡ none
not_there none h = refl
not_there (some p) h = absurd (h λ e. cc e)

new-IsFresh :
    {limit root end new : ℕ} {base : List ℕ} {chunk : Bytes} {prev : Option (ℕ × Page)}
    {ids : List ℕ} {b b' : BufferManager} {page : Page}
    → Rounds limit root end base chunk prev ids b new page b'
    → IsFresh ids (view b) new
new-IsFresh {new = new} {b = b} r off = not_there (view b new) λ there. r.apart new off there refl

-- The page is the last one: it is let go.
pub last-Chains :
    (limit root end new first : ℕ) (base : List ℕ) (rest : Bytes) (prev : Option (ℕ × Page))
    (ids : List ℕ) (b b4 : BufferManager) (page : Page)
    → Rounds limit root end base (take 4060 rest) prev ids b new page b4
    → drop 4060 rest ≡ []
    → length rest ≢ 0
    → Ends
        (λ _. Chains limit root base rest first prev ids b (if first == 0 then new else first))
        (unpin new true b4)
last-Chains limit root end new first base rest prev ids b b4 page r done more =
    Ends-imp (unpin new true b4) (unpin-LetGo limit base new b4 r.use_new) λ u b5 l. record {
      use_base = l.use_less;
      left = r.left;
      stack = FreeStack-view (view b4) (view b5) root r.left r.stack l.same;
      less = r.less;
      new = new;
      real = r.real;
      small = r.small;
      answers = refl;
      pages = 1;
      few = omega (arith, more);
      chain = λ w agrees.
          IsChain-cons w 0 new 0 rest (content page)
            (agrees new r.real (new-IsFresh r) ∙ l.same new ∙ r.shown)
            (content-HoldsChunk (take 4060 rest) 0 new page r.part) r.real (refl, done);
      linked = IsLinked-view prev new (view b4) (view b5) (λ j used. l.same j) r.linked;
      others = λ j nz unheld off there. l.same j ∙ r.others j nz (r.apart j off there) unheld;
    }

IsLinked-there :
    (prev : Option (ℕ × Page)) (new : ℕ) (v : ℕ → Option Page) (j : ℕ)
    → IsLinked prev new v
    → count j (held_by prev) ≢ 0
    → v j ≢ none
IsLinked-there none new v j linked used gone = used refl
IsLinked-there (some (id, p)) new v j linked used gone = elim (Bool-cases (id == j)) [
  | inl e ↦ let here : id ≡ j = (==_iff id j).0 e in cc (linked, gone, ap v here)
  | inr ne ↦ used (rw ne refl)
]

-- A page in use before a round.
pub previous_there :
    (prev : Option (ℕ × Page)) (part : Bytes) (ids : List ℕ) (v : ℕ → Option Page) (j : ℕ)
    → IsPrevious prev part ids v
    → count j (held_by prev) ≢ 0
    → (j ≢ 0) × (count j ids ≡ 0) × (v j ≢ none)
previous_there none part ids v j before used = absurd (used refl)
previous_there (some (id, p)) part ids v j (shown, held, real, off) used =
    elim (Bool-cases (id == j)) [
      | inl e ↦
          let here : id ≡ j = (==_iff id j).0 e in
          (
            (λ z. real (here ∙ z)),
            ap (λ k. count k ids) (sym here) ∙ off,
            λ gone. cc (shown, gone, ap v here),
          )
      | inr ne ↦ absurd (used (rw ne refl))
    ]

-- The page is linked to the chain of what is left.
pub linked-Chains :
    (limit root end new first : ℕ) (base : List ℕ) (rest : Bytes) (prev : Option (ℕ × Page))
    (ids : List ℕ) (b b4 : BufferManager) (page : Page)
    (r : Rounds limit root end base (take 4060 rest) prev ids b new page b4)
    (held : (j : ℕ) → count j (held_by prev) ≢ 0 → (j ≢ 0) × (count j ids ≡ 0) × (view b j ≢ none))
    → (answer : ℕ) (b' : BufferManager) → length rest ≢ 0
    → Chains limit root base
        (drop 4060 rest)
        (if first == 0 then new else first)
        (some (new, page))
        r.left
        b4
        answer
        b'
    → Chains limit root base rest first prev ids b answer b'
linked-Chains limit root end new first base rest prev ids b b4 page r held answer b' more c =
    let still : (j : ℕ)
        → j ≢ 0
        → j ≢ new
        → count j ids ≡ 0
        → view b4 j ≢ none
        → view b' j ≡ view b4 j =
      λ j nz ne off there. c.others j nz (ground (arith, ne)) (r.less j off) there in
    record {
      use_base = c.use_base;
      left = c.left;
      stack = c.stack;
      less = λ j off. c.less j (r.less j off);
      new = new;
      real = r.real;
      small = r.small;
      answers = c.answers ∙ ground (arith, r.real);
      pages = suc c.pages;
      few = omega (arith, c.few, length-drop 4060 rest, more);
      chain = λ w agrees.
          IsChain-cons w c.pages new c.new rest _ (agrees new r.real (new-IsFresh r) ∙ c.linked)
            (content-HoldsChunk (take 4060 rest) c.new new _
              (set_next-HoldsChunk (take 4060 rest) 0 c.new new page c.small r.part))
            r.real
            (c.chain w λ j nz fresh. agrees j nz λ off. not_there (view b j) λ there.
              let ne = r.apart j off there in
              let gone : view b4 j ≡ none = fresh (r.less j off) in
              elim (Bool-cases (count j (held_by prev) == 0)) [
                | inl unheld ↦ there (sym (r.others j nz ne ((==_iff _ _).0 unheld)) ∙ gone)
                | inr busy ↦
                    IsLinked-there prev new (view b4) j r.linked (ground (arith, busy)) gone
              ]);
      linked =
          IsLinked-view prev new (view b4) (view b')
            (λ j used.
              let (nz, off, there) = held j used in
              still j nz (r.apart j off there) off
                (IsLinked-there prev new (view b4) j r.linked used))
            r.linked;
      others = λ j nz unheld off there.
          let ne = r.apart j off there in
          let same = r.others j nz ne unheld in
          still j nz ne off (λ gone. there (sym same ∙ gone)) ∙ same;
    }
