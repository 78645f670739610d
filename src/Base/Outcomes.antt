-- ===== src/Base/Outcomes.antt =====
-- Go's pair of a value and an error, and a run-time panic.
use Prim.Native.Nat.{ℕ}
use mathlib.Core.Option.{Option, none, some}
use mathlib.Core.Path.{◌≡◌, refl}

-- The errors that the modelled code creates; the texts are left out. AllocatePage returns the id
-- beside its error. `crashed` is a run-time panic where it reaches the coordinator; it ends the
-- process.
pub data Error : Type 0 where
  bad_page_type page_full invalid_slot : Error
  record_too_small record_size_mismatch record_checksum record_size_corrupt end_of_file : Error
  not_in_pool pin_count_zero all_pinned bad_page_size io_failed : Error
  key_not_found key_deleted write_conflict child_pointer_zero out_of_fuel : Error
  page_not_written : ℕ → Error
  crashed : Error

pub data Result {ℓ} (A : Type ℓ) : Type ℓ where
  ok : A → Result A
  err : Error → Result A
  panic : Result A

infixl 5 ◌>>=◌
abbrev pub ◌>>=◌ {ℓ κ} : {A : Type ℓ} {B : Type κ} → Result A → (A → Result B) → Result B
ok a >>= f = f a
err e >>= f = err e
panic >>= f = panic

-- An index that is out of range panics.
abbrev pub or_panic {ℓ} : {A : Type ℓ} → Option A → Result A
or_panic (some a) = ok a
or_panic none = panic

-- What ends well began well.
pub ok-bind {ℓ κ} :
    {A : Type ℓ} {B : Type κ} (r : Result A) (f : A → Result B) (b : B)
    → (r >>= f) ≡ ok b
    → (a : A) × (r ≡ ok a) × (f a ≡ ok b)
ok-bind (ok a) f b e = (a, refl, e)
ok-bind (err x) f b e = absurd (cc e)
ok-bind panic f b e = absurd (cc e)
