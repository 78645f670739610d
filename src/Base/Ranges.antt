-- ===== src/Base/Ranges.antt =====
-- Go's slice expressions and `copy` on byte slices.
use Prim.Native.Nat.{ℕ, zero, suc, ◌+◌, ◌-◌, ◌≤◌}
use mathlib.Core.Path.{◌≡◌, refl, ap, ◌∙◌}
use mathlib.Core.Logic.{◌⊎◌, inl, inr}
use mathlib.Core.Bool.{◌&&◌}
use mathlib.Core.Option.{Option, none, some}
use mathlib.Core.List.{List, [], ◌∷◌, ◌++◌}
use native.Mathlib.Omega.{arith}
use ryu_db.Base.Tests.{leb, if◌then◌else◌}
use ryu_db.Base.Lists.{
  length, take, drop, length-take, length-drop, length-append, take-length_append,
  drop-length_append,
}

-- A byte slice; a byte is a number below 256.
abbrev pub Bytes : Type 0
Bytes = List ℕ

-- The `n` bytes from `off` on, or those that are there.
pub slice : Bytes → ℕ → ℕ → Bytes
slice xs off n = take n (drop off xs)

-- `copy(xs[off:], bs)`: it stops at the end of the shorter.
unfoldable pub write : Bytes → ℕ → Bytes → Bytes
write [] off bs = []
write (x ∷ xs) zero [] = x ∷ xs
write (x ∷ xs) zero (b ∷ bs) = b ∷ write xs zero bs
write (x ∷ xs) (suc off) bs = x ∷ write xs off bs

-- `xs[lo:hi]`, with `none` for Go's panic.
unfoldable pub slice? : Bytes → ℕ → ℕ → Option Bytes
unfolding slice
slice? xs lo hi = if leb lo hi && leb hi (length xs) then some (slice xs lo (hi - lo)) else none

-- `copy(xs[lo:hi], bs)`, with `none` for Go's panic.
unfoldable pub copy? : Bytes → ℕ → ℕ → Bytes → Option Bytes
copy? xs lo hi bs =
    if leb lo hi && leb hi (length xs) then some (write xs lo (take (hi - lo) bs)) else none

pub length-write : (xs : Bytes) (off : ℕ) (bs : Bytes) → length (write xs off bs) ≡ length xs
unfolding write
length-write [] off bs = refl
length-write (x ∷ xs) zero [] = refl
length-write (x ∷ xs) zero (b ∷ bs) = ap suc (length-write xs zero bs)
length-write (x ∷ xs) (suc off) bs = ap suc (length-write xs off bs)

pub length-slice : (xs : Bytes) (off n : ℕ) → off + n ≤ length xs → length (slice xs off n) ≡ n
unfolding slice
length-slice xs off n h = length-take n (drop off xs) (omega (arith, length-drop off xs))

pub slice-write_same :
    (xs : Bytes) (off : ℕ) (bs : Bytes)
    → off + length bs ≤ length xs
    → slice (write xs off bs) off (length bs) ≡ bs
unfolding slice write take drop
slice-write_same [] zero [] h = refl
slice-write_same [] (suc off) bs h = absurd (omega arith)
slice-write_same [] zero (b ∷ bs) h = absurd (omega arith)
slice-write_same (x ∷ xs) zero [] h = refl
slice-write_same (x ∷ xs) zero (b ∷ bs) h =
    ap (λ t. b ∷ t) (slice-write_same xs zero bs (omega arith))
slice-write_same (x ∷ xs) (suc off) bs h = slice-write_same xs off bs (omega arith)

slice-write_after :
    (xs : Bytes) (off : ℕ) (bs : Bytes) (o n : ℕ)
    → off + length bs ≤ o
    → slice (write xs off bs) o n ≡ slice xs o n
unfolding slice write take drop
slice-write_after [] off bs o n h = refl
slice-write_after (x ∷ xs) zero [] o n h = refl
slice-write_after (x ∷ xs) zero (b ∷ bs) zero n h = absurd (omega arith)
slice-write_after (x ∷ xs) zero (b ∷ bs) (suc o) n h =
    slice-write_after xs zero bs o n (omega arith)
slice-write_after (x ∷ xs) (suc off) bs zero n h = absurd (omega arith)
slice-write_after (x ∷ xs) (suc off) bs (suc o) n h = slice-write_after xs off bs o n (omega arith)

slice-write_before :
    (xs : Bytes) (off : ℕ) (bs : Bytes) (o n : ℕ)
    → o + n ≤ off
    → slice (write xs off bs) o n ≡ slice xs o n
unfolding slice write take drop
slice-write_before [] off bs o n h = refl
slice-write_before (x ∷ xs) off bs zero zero h = refl
slice-write_before (x ∷ xs) zero bs zero (suc n) h = absurd (omega arith)
slice-write_before (x ∷ xs) zero bs (suc o) n h = absurd (omega arith)
slice-write_before (x ∷ xs) (suc off) bs zero (suc n) h =
    ap (λ t. x ∷ t) (slice-write_before xs off bs zero n (omega arith))
slice-write_before (x ∷ xs) (suc off) bs (suc o) n h =
    slice-write_before xs off bs o n (omega arith)

-- A write leaves what does not meet it.
pub slice-write_ne :
    (xs : Bytes) (off : ℕ) (bs : Bytes) (o n : ℕ)
    → (o + n ≤ off) ⊎ (off + length bs ≤ o)
    → slice (write xs off bs) o n ≡ slice xs o n
slice-write_ne xs off bs o n (inl h) = slice-write_before xs off bs o n h
slice-write_ne xs off bs o n (inr h) = slice-write_after xs off bs o n h

pub slice?_in :
    (xs : Bytes) (lo hi : ℕ)
    → lo ≤ hi
    → hi ≤ length xs
    → slice? xs lo hi ≡ some (slice xs lo (hi - lo))
unfolding slice?
slice?_in xs lo hi p q = ground arith

pub slice-append : (xs ys zs : Bytes) → slice (xs ++ (ys ++ zs)) (length xs) (length ys) ≡ ys
unfolding slice
slice-append xs ys zs = rw drop-length_append (take-length_append ys zs)

-- A part of a concatenation, by its bounds.
pub slice?-append :
    (all xs ys zs : Bytes) (lo hi : ℕ)
    → all ≡ xs ++ (ys ++ zs)
    → lo ≡ length xs
    → hi ≡ length xs + length ys
    → slice? all lo hi ≡ some ys
unfolding slice?
slice?-append all xs ys zs lo hi e p q =
    let room : length all ≡ length xs + length ys + length zs =
      omega (arith, ap length e, length-append {0} xs (ys ++ zs), length-append {0} ys zs) in
    let n : hi - lo ≡ length ys = omega arith in
    let part : slice all lo (hi - lo) ≡ ys = rw (e, n, p) (slice-append xs ys zs) in ground arith

take_all : (xs : Bytes) → take (length xs) xs ≡ xs
unfolding take
take_all [] = refl
take_all (x ∷ xs) = ap (λ t. x ∷ t) (take_all xs)

-- A copy into a range of its own length.
pub copy?_in :
    (xs : Bytes) (lo hi : ℕ) (bs : Bytes)
    → lo + length bs ≡ hi
    → hi ≤ length xs
    → copy? xs lo hi bs ≡ some (write xs lo bs)
unfolding copy?
copy?_in xs lo hi bs e h =
    let n : hi - lo ≡ length bs = omega arith in
    let whole : take (hi - lo) bs ≡ bs = rw n (take_all bs) in ground arith

pub slice?_at :
    (xs : Bytes) (lo hi n : ℕ)
    → lo + n ≡ hi
    → hi ≤ length xs
    → slice? xs lo hi ≡ some (slice xs lo n)
slice?_at xs lo hi n e h =
    let m : hi - lo ≡ n = omega arith in rw (slice?_in xs lo hi (omega arith) h, m) refl

drop-add_append : (xs ys : Bytes) (o : ℕ) → drop (length xs + o) (xs ++ ys) ≡ drop o ys
unfolding drop
drop-add_append [] ys o = ap (λ k. drop k ys) (let e : 0 + o ≡ o = omega arith in e)
drop-add_append (x ∷ xs) ys o =
    ap (λ k. drop k (x ∷ xs ++ ys))
      (let e : suc (length xs) + o ≡ suc (length xs + o) = omega arith in e)
    ∙ drop-add_append xs ys o

-- A part of the second of two buffers.
pub slice-append_right :
    (xs ys : Bytes) (o n : ℕ) → slice (xs ++ ys) (length xs + o) n ≡ slice ys o n
unfolding slice
slice-append_right xs ys o n = ap (take n) (drop-add_append xs ys o)

-- A part of the first of two buffers.
pub slice-append_left :
    (xs ys : Bytes) (o n : ℕ) → o + n ≤ length xs → slice (xs ++ ys) o n ≡ slice xs o n
unfolding slice take drop
slice-append_left [] ys zero zero h = refl
slice-append_left [] ys zero (suc n) h = absurd (omega arith)
slice-append_left [] ys (suc o) n h = absurd (omega arith)
slice-append_left (x ∷ xs) ys zero zero h = refl
slice-append_left (x ∷ xs) ys zero (suc n) h =
    ap (λ t. x ∷ t) (slice-append_left xs ys zero n (omega arith))
slice-append_left (x ∷ xs) ys (suc o) n h = slice-append_left xs ys o n (omega arith)

-- A part of what was taken.
pub slice-take : (m : ℕ) (xs : Bytes) (o n : ℕ) → o + n ≤ m → slice (take m xs) o n ≡ slice xs o n
unfolding slice take drop
slice-take zero xs zero zero h = refl
slice-take zero xs zero (suc n) h = absurd (omega arith)
slice-take zero xs (suc o) n h = absurd (omega arith)
slice-take (suc m) [] o n h = refl
slice-take (suc m) (x ∷ xs) zero zero h = refl
slice-take (suc m) (x ∷ xs) zero (suc n) h = ap (λ t. x ∷ t) (slice-take m xs zero n (omega arith))
slice-take (suc m) (x ∷ xs) (suc o) n h = slice-take m xs o n (omega arith)

-- The whole, as a part.
pub slice_whole : (xs : Bytes) → slice xs 0 (length xs) ≡ xs
unfolding slice drop
slice_whole xs = take_all xs
