-- ===== src/Tree/CreateChain.antt =====
-- One round of createOverflowChain: a new page, linked behind the page before, holds a part.
use mathlib.Core.Path.{subst}
use ryu_db.Base.{
  ℕ, suc, ◌+◌, ◌≤◌, ◌<◌, ◌^◌, ◌≡◌, ◌≢◌, refl, sym, ap, ◌∙◌, arith, true, false, Option, none, some,
  List, ◌∷◌, Bytes, length, ◌==◌, ==_iff, inl, inr, Bool-cases,
}
use ryu_db.Base.State.{Op, Ends, Ends-and_then, and_then}
use ryu_db.Page.{Page, get_page_id, page_type_overflow}
use ryu_db.Buffer.{BufferManager, fetch_page_for_write}
use ryu_db.Buffer.View.{content, view}
use ryu_db.Buffer.Pins.{count, IsUsing}
use ryu_db.Buffer.Hold.{fetch_page_for_write-Holding}
use ryu_db.Tree.Pages.{store}
use ryu_db.Tree.Held.{store-Stored}
use ryu_db.Tree.FreeList.{allocate_page}
use ryu_db.Tree.FreeStack.{FreeStack, Holding-size}
use ryu_db.Tree.Allocate.{Idle, allocate_page-Allocates}
use ryu_db.Tree.Pop.{Allocates}
use ryu_db.Tree.Upsert.{content-page_id}
use ryu_db.Tree.Chunk.{HoldsChunk, write_chunk-HoldsChunk}
use ryu_db.Tree.Link.{held_by, holding, IsPrevious, IsLinked, FreeStack-apart, link_previous-Links}
use ryu_db.Tree.Overflow.{link_previous, write_chunk}

-- The ids from `end` on are not pages.
abbrev pub EndsAt : ℕ → (ℕ → Option Page) → Type 0
EndsAt end v = (j : ℕ) → end ≤ j → v j ≡ none

-- What a round makes of the pages.
pub record Rounds (limit root end : ℕ) (base : List ℕ) (chunk : Bytes) (prev : Option (ℕ × Page))
    (ids : List ℕ) (b : BufferManager) (new : ℕ) (page : Page) (b' : BufferManager) : Type 0 where
  pub use_new : IsUsing limit (new ∷ base) b'
  pub left : List ℕ
  pub stack : FreeStack (view b') root left
  pub less : (j : ℕ) → count j ids ≡ 0 → count j left ≡ 0
  pub shown : view b' new ≡ some (content page)
  pub part : HoldsChunk chunk 0 new page
  pub real : new ≢ 0
  pub small : new < 2 ^ 32
  pub once : count new left ≡ 0
  pub apart : (j : ℕ) → count j ids ≡ 0 → view b j ≢ none → j ≢ new
  pub linked : IsLinked prev new (view b')
  pub others : (j : ℕ) → j ≢ 0 → j ≢ new → count j (held_by prev) ≡ 0 → view b' j ≡ view b j
  pub bound : EndsAt (suc end) (view b')

-- The page before is not the meta page, not on the stack, and not behind the end.
previous_apart :
    (prev : Option (ℕ × Page)) (part : Bytes) (ids : List ℕ) (v : ℕ → Option Page) (end : ℕ)
    → IsPrevious prev part ids v
    → EndsAt end v
    → (count 0 (held_by prev) ≡ 0)
      × Idle (held_by prev) ids
      × (length (held_by prev) ≤ 1)
      × ((j : ℕ) → end ≤ j → count j (held_by prev) ≡ 0)
      × ((j : ℕ) → count j (held_by prev) ≢ 0 → count j ids ≡ 0)
previous_apart none part ids v end before ends =
    (refl, (λ j on. refl), omega arith, (λ j far. refl), λ j used. absurd (used refl))
previous_apart (some (id, p)) part ids v end (shown, held, real, apart) ends = (
  ground (arith, real),
  (λ j on. elim (Bool-cases (id == j)) [
    | inl e ↦
        let here : id ≡ j = (==_iff id j).0 e in
        absurd (on (ap (λ k. count k ids) (sym here) ∙ apart))
    | inr ne ↦ rw ne refl
  ]),
  omega arith,
  (λ j far. elim (Bool-cases (id == j)) [
    | inl e ↦
        let here : id ≡ j = (==_iff id j).0 e in
        let gone : v id ≡ none = ap v here ∙ ends j far in absurd (cc (gone, shown))
    | inr ne ↦ rw ne refl
  ]),
  λ j used. elim (Bool-cases (id == j)) [
    | inl e ↦ let here : id ≡ j = (==_iff id j).0 e in ap (λ k. count k ids) (sym here) ∙ apart
    | inr ne ↦ absurd (used (rw ne refl))
  ],
)

IsPrevious-view :
    (prev : Option (ℕ × Page)) (part : Bytes) (ids left : List ℕ) (v w : ℕ → Option Page)
    → ((j : ℕ) → count j (held_by prev) ≢ 0 → w j ≡ v j)
    → ((j : ℕ) → count j ids ≡ 0 → count j left ≡ 0)
    → IsPrevious prev part ids v
    → IsPrevious prev part left w
IsPrevious-view none part ids left v w same less before = tt
IsPrevious-view (some (id, p)) part ids left v w same less (shown, held, real, apart) =
    (same id (ground arith) ∙ shown, held, real, less id apart)

pub IsLinked-view :
    (prev : Option (ℕ × Page)) (new : ℕ) (v w : ℕ → Option Page)
    → ((j : ℕ) → count j (held_by prev) ≢ 0 → w j ≡ v j)
    → IsLinked prev new v
    → IsLinked prev new w
IsLinked-view none new v w same h = tt
IsLinked-view (some (id, p)) new v w same h = same id (ground arith) ∙ h

-- What has been allocated was neither there nor elsewhere in use.
taken_apart :
    {limit root mode new : ℕ} {held ids : List ℕ} {b b' : BufferManager}
    (a : Allocates limit held root ids mode b new b')
    → ((j : ℕ) → count j ids ≡ 0 → count j a.left ≡ 0)
      × ((j : ℕ) → count j ids ≡ 0 → view b j ≢ none → j ≢ new)
taken_apart {new = new} {ids = ids} {b = b} a = elim a.taken [
  | inl top ↦ (
    (λ j off.
        let e : count j (new ∷ a.left) ≡ 0 = ap (λ k. count j k) (sym top) ∙ off in
        omega (arith, e)),
    λ j off there same.
        let e : count new (new ∷ a.left) ≡ 0 =
          ap (λ k. count k (new ∷ a.left)) (sym same) ∙ ap (λ k. count j k) (sym top) ∙ off in
        ground (arith, e),
  )
  | inr (empty, empty', gone) ↦
      ((λ j off. ap (λ k. count j k) empty'), λ j off there same. there (ap (view b) same ∙ gone))
]

holding_apart :
    (prev : Option (ℕ × Page)) (base ids : List ℕ)
    → count 0 (held_by prev) ≡ 0
    → Idle (held_by prev) ids
    → count 0 base ≡ 0
    → Idle base ids
    → (count 0 (holding prev base) ≡ 0)
      × Idle (holding prev base) ids
      × (length (holding prev base) ≤ suc (length base))
      × ((j : ℕ) → count j (holding prev base) ≡ 0 → count j (held_by prev) ≡ 0)
holding_apart none base ids no_meta idle base_real base_idle =
    (base_real, base_idle, omega arith, λ j e. refl)
holding_apart (some (id, p)) base ids no_meta idle base_real base_idle = (
  omega (arith, no_meta, base_real),
  (λ j on. omega (arith, idle j on, base_idle j on)),
  omega arith,
  λ j e. omega (arith, e),
)

pub round-Rounds :
    {A : Type 0} {Q : A → BufferManager → Type 0} (limit root end : ℕ) (base : List ℕ)
    (chunk part : Bytes) (prev : Option (ℕ × Page)) (ids : List ℕ) (b : BufferManager)
    (k : ℕ → Page → Op BufferManager A)
    → IsUsing limit (holding prev base) b
    → 2 + length base < limit
    → count 0 base ≡ 0
    → Idle base ids
    → FreeStack (view b) root ids
    → IsPrevious prev part ids (view b)
    → EndsAt end (view b)
    → end < 2 ^ 32
    → length chunk ≤ 4060
    → ((new : ℕ) (page : Page) (b' : BufferManager)
        → Rounds limit root end base chunk prev ids b new (write_chunk chunk page) b'
        → Ends Q (k new page b'))
    → Ends Q (
        and_then (allocate_page page_type_overflow b) λ new b1.
          and_then (fetch_page_for_write new page_type_overflow b1) λ p b2.
            and_then
              (link_previous prev new b2)
              λ linked b3. and_then (store new (write_chunk chunk p) b3) λ stored. k new p)
round-Rounds limit root end base chunk part prev ids b k h room base_real base_idle st before ends
      small short go_on =
    let held = holding prev base in
    let behind = held_by prev in
    let (no_meta, idle, one, far, off) = previous_apart prev part ids (view b) end before ends in
    let (held_real, held_idle, held_size, held_used) =
      holding_apart prev base ids no_meta idle base_real base_idle in
    Ends-and_then (allocate_page page_type_overflow b) _
      (allocate_page-Allocates limit held root page_type_overflow end ids b h
        (omega (arith, room, held_size)) held_real st held_idle (omega arith)
        (ends end (omega arith)) small)
      λ new b1 a.
        let (less, apart) = taken_apart a in
        let within : new ≤ end = a.near end ends in
        let used_apart : (j : ℕ) → count j behind ≢ 0 → (j ≢ 0) × (j ≢ new) = λ j used. (
          (λ e. used (ap (λ i. count i behind) e ∙ no_meta)),
          (λ e. used (ap (λ i. count i behind) e ∙ held_used new a.unused)),
        ) in
        Ends-and_then (fetch_page_for_write new page_type_overflow b1) _
          (fetch_page_for_write-Holding limit held new page_type_overflow b1 a.fresh a.use_same
            a.unused (omega (arith, room, held_size)) a.shown)
          λ p b2 hp.
            let own : get_page_id p ≡ new =
              sym (content-page_id p) ∙ ap get_page_id hp.shown ∙ a.own in
            let page = write_chunk chunk p in
            let holds : HoldsChunk chunk 0 new page =
              subst (λ i. HoldsChunk chunk 0 i page) own
                (write_chunk-HoldsChunk chunk p (Holding-size hp) short) in
            let before2 =
              IsPrevious-view prev part ids a.left (view b) (view b2)
                (λ j used. let (nz, ne) = used_apart j used in hp.same j ∙ a.others j nz ne) less
                before in
            Ends-and_then (link_previous prev new b2) _
              (link_previous-Links limit new part prev a.left base b2 hp.use_more before2 a.small)
              λ u b3 l.
                Ends-and_then (store new page b3) (λ stored. k new p)
                  (store-Stored limit (new ∷ base) new page b3 l.use_new (ground arith) holds.size)
                  λ w b4 s.
                    let here : (new == new) ≡ true = (==_iff new new).1 refl in
                    let still : (j : ℕ) → j ≢ new → view b4 j ≡ view b3 j = λ j ne.
                      let other : (new == j) ≡ false = ground (arith, ne) in
                      s.shown j ∙ (rw other refl) in
                    let others : (j : ℕ)
                        → j ≢ 0
                        → j ≢ new
                        → count j behind ≡ 0
                        → view b4 j ≡ view b j =
                      λ j nz ne unheld.
                        still j ne ∙ l.others j unheld ∙ hp.same j ∙ a.others j nz ne in
                    go_on new p b4 (record {
                      use_new = s.use_same;
                      left = a.left;
                      stack =
                          FreeStack-apart (view b1) (view b4) root a.left a.stack
                            (still 0 (λ e. a.real (sym e)) ∙ l.others 0 no_meta ∙ hp.same 0)
                            λ j nz on.
                              still j (λ e. on (ap (λ i. count i a.left) e ∙ a.once))
                              ∙ l.others j (elim (Bool-cases (count j behind == 0)) [
                                | inl none_held ↦ (==_iff _ _).0 none_held
                                | inr busy ↦ absurd (on (less j (off j (ground (arith, busy)))))
                              ])
                              ∙ hp.same j;
                      less = less;
                      shown = s.shown new ∙ (rw here refl);
                      part = holds;
                      real = a.real;
                      small = a.small;
                      once = a.once;
                      apart = apart;
                      linked =
                          IsLinked-view prev new (view b3) (view b4)
                            (λ j used. let (nz, ne) = used_apart j used in still j ne) l.linked;
                      others = others;
                      bound = λ j beyond.
                          others j (omega (arith, beyond)) (omega (arith, beyond, within))
                            (far j (omega (arith, beyond)))
                          ∙ ends j (omega (arith, beyond));
                    })
