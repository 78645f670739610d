-- ===== src/Base/State.antt =====
-- Code that reads and changes a state and may fail: the state behind it stands beside the outcome, so
-- an error keeps what was done before it.
use mathlib.Core.Path.{◌≡◌, refl, sym, ap, subst}
use ryu_db.Base.Outcomes.{Result, ok, err, panic}

abbrev pub Op {ℓ κ} : Type ℓ → Type κ → Type (ℓ ⊔ κ)
Op S A = S → Result A × S

abbrev pub and_then {ℓ κ μ} :
    {S : Type ℓ} {A : Type κ} {B : Type μ} → Result A × S → (A → Op S B) → Result B × S
and_then (ok a, s) f = f a s
and_then (err e, s) f = (err e, s)
and_then (panic, s) f = (panic, s)

infixl 5 ◌>>=◌
abbrev pub ◌>>=◌ {ℓ κ μ} : {S : Type ℓ} {A : Type κ} {B : Type μ} → Op S A → (A → Op S B) → Op S B
(m >>= f) s = and_then (m s) f

-- An error that is not looked at.
abbrev pub ignore {ℓ κ} : {S : Type ℓ} {A : Type κ} → Result A × S → Result (Unit {0}) × S
ignore (ok a, s) = (ok tt, s)
ignore (err e, s) = (ok tt, s)
ignore (panic, s) = (panic, s)

-- The code returns a value, without an error or a panic, and `P` holds of it and the state behind it.
pub record Ends {ℓ κ} {A : Type ℓ} {S : Type κ} (P : A → S → Type 0) (r : Result A × S)
    : Type (ℓ ⊔ κ) where
  pub value : A
  pub state : S
  pub is_ok : r ≡ (ok value, state)
  pub holds : P value state

pub Ends-and_then {ℓ κ μ} :
    {A : Type ℓ} {B : Type κ} {S : Type μ} {P : A → S → Type 0} {Q : B → S → Type 0}
    (r : Result A × S) (f : A → Op S B)
    → Ends P r
    → ((a : A) (s : S) → P a s → Ends Q (f a s))
    → Ends Q (and_then r f)
Ends-and_then {Q = Q} r f h k =
    subst (λ t. Ends Q (and_then t f)) (sym h.is_ok) (k h.value h.state h.holds)

pub Ends-imp {ℓ κ} :
    {A : Type ℓ} {S : Type κ} {P Q : A → S → Type 0} (r : Result A × S)
    → Ends P r
    → ((a : A) (s : S) → P a s → Q a s)
    → Ends Q r
Ends-imp r h k = record {
  value = h.value;
  state = h.state;
  is_ok = h.is_ok;
  holds = k h.value h.state h.holds;
}

pub ended {ℓ κ} :
    {A : Type ℓ} {S : Type κ} {P : A → S → Type 0} (a : A) (s : S) → P a s → Ends P (ok a, s)
ended a s h = record { value = a; state = s; is_ok = refl; holds = h }

pub Ends-ok {ℓ κ} :
    {A : Type ℓ} {S : Type κ} {P : A → S → Type 0} (r : Result A × S) (a : A)
    → r.0 ≡ ok a
    → P a r.1
    → Ends P r
Ends-ok r a e h = record { value = a; state = r.1; is_ok = ap (λ x. (x, r.1)) e; holds = h }
