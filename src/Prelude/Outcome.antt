-- ===== src/Prelude/Outcome.antt =====
-- Outcomes of C code: a value, or the way in which execution leaves the defined path.
use mathlib.Core.Bool.{Bool, true, false}
use rasta_s.Prelude.Tests.{if◌then◌else◌}

-- `assert_failed` is the endless loop of `assert` (common/include/assert.h), `null_pointer` a call
-- or a read through NULL, `out_of_bounds` an access outside the object that a pointer points into.
pub data Fault : Type 0 where
  assert_failed null_pointer out_of_bounds : Fault

pub data Result {ℓ} (A : Type ℓ) : Type ℓ where
  ok : A → Result A
  err : Fault → Result A

infixl 5 ◌>>=◌
abbrev pub ◌>>=◌ {ℓ κ} : {A : Type ℓ} {B : Type κ} → Result A → (A → Result B) → Result B
ok a >>= f = f a
err e >>= f = err e

-- What holds of the value, if there is one.
abbrev pub Ensures : {A : Type 0} → (A → Type 0) → Result A → Type 0
Ensures P (ok a) = P a
Ensures P (err fault) = Unit {0}

pub Ensures-any : {A : Type 0} (r : Result A) → Ensures (λ (a : A). Unit {0}) r
Ensures-any (ok a) = tt
Ensures-any (err fault) = tt

pub Ensures-bind :
    {A B : Type 0} (P : A → Type 0) (Q : B → Type 0) (r : Result A) (k : A → Result B)
    → Ensures P r
    → ((a : A) → P a → Ensures Q (k a))
    → Ensures Q (r >>= k)
Ensures-bind P Q (ok a) k h f = f a h
Ensures-bind P Q (err fault) k h f = tt

pub Ensures-if :
    {A : Type 0} (P : A → Type 0) (b : Bool) (x y : Result A)
    → Ensures P x
    → Ensures P y
    → Ensures P (if b then x else y)
Ensures-if P true x y h k = h
Ensures-if P false x y h k = k
