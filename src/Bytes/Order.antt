-- ===== src/Bytes/Order.antt =====
-- bytes.Compare: the lexicographic order of byte slices.
use Prim.Native.Nat.{compare, Ordering}
use ryu_db.Base.{ℕ, zero, suc, ◌/◌, ◌%◌, ◌^◌, ◌<◌, ◌≡◌, refl, ◌↔◌, arith}
use ryu_db.Base.{Bool, true, false, [], ◌∷◌, ◌++◌, Bytes, length}
use ryu_db.Bytes.Binary.{be_bytes, length-be_bytes}

abbrev pub then_compare : Ordering → Ordering → Ordering
then_compare Ordering.lt o = Ordering.lt
then_compare Ordering.eq o = o
then_compare Ordering.gt o = Ordering.gt

unfoldable pub compare_bytes : Bytes → Bytes → Ordering
compare_bytes [] [] = Ordering.eq
compare_bytes [] (y ∷ ys) = Ordering.lt
compare_bytes (x ∷ xs) [] = Ordering.gt
compare_bytes (x ∷ xs) (y ∷ ys) = then_compare (compare x y) (compare_bytes xs ys)

-- `bytes.Compare(a, b) < 0`, `<= 0` and `bytes.Equal(a, b)`.
abbrev pub bytes_lt : Bytes → Bytes → Bool
bytes_lt a b = elim (compare_bytes a b) [ Ordering.lt ↦ true | _ ↦ false ]

abbrev pub bytes_le : Bytes → Bytes → Bool
bytes_le a b = elim (compare_bytes a b) [ Ordering.gt ↦ false | _ ↦ true ]

abbrev pub bytes_eq : Bytes → Bytes → Bool
bytes_eq a b = elim (compare_bytes a b) [ Ordering.eq ↦ true | _ ↦ false ]

pub compare_bytes_refl : (a : Bytes) → compare_bytes a a ≡ Ordering.eq
unfolding compare_bytes
compare_bytes_refl [] = refl
compare_bytes_refl (x ∷ xs) = ground (arith, compare_bytes_refl xs)

pub compare_bytes-eq : (a b : Bytes) → compare_bytes a b ≡ Ordering.eq → a ≡ b
unfolding compare_bytes
compare_bytes-eq [] [] h = refl
compare_bytes-eq [] (y ∷ ys) h = cc
compare_bytes-eq (x ∷ xs) [] h = cc
compare_bytes-eq (x ∷ xs) (y ∷ ys) h = ground (arith, compare_bytes-eq xs ys)

pub compare_bytes-flip :
    (a b : Bytes) → (compare_bytes a b ≡ Ordering.lt) ↔ (compare_bytes b a ≡ Ordering.gt)
unfolding compare_bytes
compare_bytes-flip [] [] = ((λ h. cc), (λ h. cc))
compare_bytes-flip [] (y ∷ ys) = ((λ h. refl), (λ h. refl))
compare_bytes-flip (x ∷ xs) [] = ((λ h. cc), (λ h. cc))
compare_bytes-flip (x ∷ xs) (y ∷ ys) = ground (arith, compare_bytes-flip xs ys)

pub compare_bytes_trans :
    (a b c : Bytes)
    → compare_bytes a b ≡ Ordering.lt
    → compare_bytes b c ≡ Ordering.lt
    → compare_bytes a c ≡ Ordering.lt
unfolding compare_bytes
compare_bytes_trans [] [] c p q = cc
compare_bytes_trans [] (y ∷ ys) [] p q = cc
compare_bytes_trans [] (y ∷ ys) (z ∷ zs) p q = refl
compare_bytes_trans (x ∷ xs) [] c p q = cc
compare_bytes_trans (x ∷ xs) (y ∷ ys) [] p q = cc
compare_bytes_trans (x ∷ xs) (y ∷ ys) (z ∷ zs) p q = ground (arith, compare_bytes_trans xs ys zs)

pub bytes_eq_iff : (a b : Bytes) → (bytes_eq a b ≡ true) ↔ (a ≡ b)
bytes_eq_iff a b =
    (λ h. compare_bytes-eq a b (ground arith), λ e. ground (arith, compare_bytes_refl b))

-- Behind a common prefix the rest decides.
pub compare_bytes-append_left :
    (p a b : Bytes) → compare_bytes (p ++ a) (p ++ b) ≡ compare_bytes a b
unfolding compare_bytes
compare_bytes-append_left [] a b = refl
compare_bytes-append_left (x ∷ p) a b = ground (arith, compare_bytes-append_left p a b)

compare_bytes-snoc :
    (xs ys : Bytes) (x y : ℕ)
    → length xs ≡ length ys
    → compare_bytes (xs ++ x ∷ []) (ys ++ y ∷ []) ≡ then_compare (compare_bytes xs ys) (compare x y)
unfolding compare_bytes
compare_bytes-snoc [] [] x y h = ground arith
compare_bytes-snoc [] (b ∷ ys) x y h = absurd (omega arith)
compare_bytes-snoc (a ∷ xs) [] x y h = absurd (omega arith)
compare_bytes-snoc (a ∷ xs) (b ∷ ys) x y h = ground (arith, compare_bytes-snoc xs ys x y)

-- Big-endian digits compare as the numbers do.
pub compare_bytes-be_bytes :
    (w a b : ℕ)
    → a < 256 ^ w
    → b < 256 ^ w
    → compare_bytes (be_bytes w a) (be_bytes w b) ≡ compare a b
unfolding be_bytes
compare_bytes-be_bytes zero a b ha hb = unfold compare_bytes in ground arith
compare_bytes-be_bytes (suc w) a b ha hb = ground (
  arith,
  compare_bytes-snoc (be_bytes w (a / 256)) (be_bytes w (b / 256)) (a % 256) (b % 256),
  length-be_bytes w (a / 256),
  length-be_bytes w (b / 256),
  compare_bytes-be_bytes w (a / 256) (b / 256) (omega arith) (omega arith),
)
