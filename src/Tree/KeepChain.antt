-- ===== src/Tree/KeepChain.antt =====
-- The loop of createOverflowChain makes a chain that holds the value.
use ryu_db.Base.{
  ℕ, zero, suc, ◌+◌, ◌≤◌, ◌<◌, ◌^◌, ◌≡◌, ◌≢◌, refl, arith, true, Option, none, some, List, [], ◌∷◌,
  Bytes, length, ◌==◌, ==_iff, if◌then◌else◌, ok, inl, inr, Bool-cases, take, drop, length-take-le,
  length-drop,
}
use ryu_db.Base.State.{Ends, Ends-and_then, Ends-imp, ended, and_then}
use ryu_db.Page.{Page}
use ryu_db.Buffer.{BufferManager}
use ryu_db.Buffer.View.{view}
use ryu_db.Buffer.Pins.{count, IsUsing}
use ryu_db.Tree.Pages.{unpin}
use ryu_db.Tree.FreeStack.{FreeStack}
use ryu_db.Tree.Allocate.{Idle}
use ryu_db.Tree.Link.{holding, IsPrevious}
use ryu_db.Tree.CreateChain.{EndsAt, round-Rounds}
use ryu_db.Tree.Overflow.{create_loop, write_chunk}
use ryu_db.Tree.Chain.{Chains, last-Chains, linked-Chains, previous_there}

none_left : (xs : Bytes) → (length xs == 0) ≡ true → xs ≡ []
none_left [] e = refl
none_left (x ∷ xs) e = absurd (ground (arith, e))

pub create_loop-Chains :
    (fuel limit root end first : ℕ) (base : List ℕ) (part rest : Bytes) (prev : Option (ℕ × Page))
    (ids : List ℕ) (b : BufferManager)
    → IsUsing limit (holding prev base) b
    → 2 + length base < limit
    → count 0 base ≡ 0
    → Idle base ids
    → FreeStack (view b) root ids
    → IsPrevious prev part ids (view b)
    → EndsAt end (view b)
    → end + length rest < 2 ^ 32
    → length rest ≢ 0
    → length rest ≤ fuel
    → Ends (Chains limit root base rest first prev ids b) (create_loop fuel rest first prev b)
unfolding create_loop
create_loop-Chains fuel limit root end first base part [] prev ids b h room real idle st before ends
      small more enough =
    absurd (more refl)
create_loop-Chains zero limit root end first base part (x ∷ xs) prev ids b h room real idle st
      before ends small more enough =
    absurd (omega (arith, enough))
create_loop-Chains (suc fuel) limit root end first base part (x ∷ xs) prev ids b h room real idle st
      before ends small more enough =
    let rest : Bytes = x ∷ xs in
    let left_over = drop 4060 rest in
    let go_on = λ (new : ℕ) (page : Page) (b4 : BufferManager).
      let first' = if first == 0 then new else first in
      if length left_over == 0
      then and_then (unpin new true b4) (λ done. create_loop fuel left_over first' none)
      else create_loop fuel left_over first' (some (new, write_chunk (take 4060 rest) page)) b4 in
    round-Rounds limit root end base (take 4060 rest) part prev ids b go_on h room real idle st
      before ends (omega (arith, small)) (length-take-le 4060 rest)
      λ new page b4 r. elim (Bool-cases (length left_over == 0)) [
        | inl done ↦
            let empty : left_over ≡ [] = none_left left_over done in
            rw (done, empty)
              (Ends-and_then (unpin new true b4)
                (λ u b5. (ok (if first == 0 then new else first), b5))
                (last-Chains limit root end new first base rest prev ids b b4 _ r empty more)
                λ u b5 c. ended _ b5 c)
        | inr further ↦ rw further (
            Ends-imp
              (create_loop fuel left_over (if first == 0 then new else first)
                (some (new, write_chunk (take 4060 rest) page)) b4)
              (create_loop-Chains fuel limit root (suc end) (if first == 0 then new else first) base
                (take 4060 rest) left_over (some (new, write_chunk (take 4060 rest) page)) r.left b4
                r.use_new room real
                (λ j on. elim (Bool-cases (count j ids == 0)) [
                  | inl off ↦ absurd (on (r.less j ((==_iff _ _).0 off)))
                  | inr on' ↦ idle j (ground (arith, on'))
                ])
                r.stack (r.shown, r.part, r.real, r.once) r.bound
                (omega (arith, length-drop 4060 rest, small)) (ground (arith, further))
                (omega (arith, length-drop 4060 rest, enough)))
              λ answer b5 c.
                linked-Chains limit root end new first base rest prev ids b b4 _ r
                  (λ j. previous_there prev part ids (view b) j before) answer b5 more c)
      ]
