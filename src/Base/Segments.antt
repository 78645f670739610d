-- ===== src/Base/Segments.antt =====
-- Parts of a buffer that is a row of segments.
use mathlib.Core.List.{append_assoc}
use Prim.Native.Nat.{ℕ, ◌+◌}
use mathlib.Core.Path.{◌≡◌, refl, ap, ◌∙◌}
use mathlib.Core.List.{List, [], ◌∷◌, ◌++◌}
use native.Mathlib.Omega.{arith}
use ryu_db.Base.Lists.{length, length-append}
use ryu_db.Base.Ranges.{Bytes, slice, slice-append}

abbrev pub flatten : List Bytes → Bytes
flatten [] = []
flatten (s ∷ ss) = s ++ flatten ss

abbrev pub total : List Bytes → ℕ
total [] = 0
total (s ∷ ss) = length s + total ss

flatten-append : (ss ts : List Bytes) → flatten (ss ++ ts) ≡ flatten ss ++ flatten ts
flatten-append [] ts = refl
flatten-append (s ∷ ss) ts = ap (λ t. s ++ t) (flatten-append ss ts) ∙ rw append_assoc refl

pub length-flatten : (ss : List Bytes) → length (flatten ss) ≡ total ss
length-flatten [] = refl
length-flatten (s ∷ ss) = omega (arith, length-append s (flatten ss), length-flatten ss)

-- A segment, by where it begins and how long it is.
pub slice-segment :
    (before : List Bytes) (s : Bytes) (after : List Bytes) (lo n : ℕ)
    → lo ≡ total before
    → n ≡ length s
    → slice (flatten (before ++ s ∷ after)) lo n ≡ s
slice-segment before s after lo n e f =
    let lo' : lo ≡ length (flatten before) = omega (arith, length-flatten before) in
    rw (flatten-append, lo', f) (slice-append (flatten before) s (flatten after))
