-- ===== src/Common/Results.antt =====
-- Go's `(value, error)` results: a value, or the cause of the failure.
use mathlib.Core.Path.{◌≡◌, refl}
use mathlib.Core.Logic.{◌⊎◌, inl, inr}
use mathlib.Core.Bool.{Bool, true, false, not}
use mathlib.Core.Option.{Option, none, some}
use native.Mathlib.Omega.{arith}

pub data Result {ℓ} (E : Type ℓ) (A : Type ℓ) : Type ℓ where
  ok : A → Result E A
  err : E → Result E A

-- `if !passed { return cause }`
abbrev pub require : {E : Type 0} → Bool → E → Result E (Unit {0})
require true cause = ok tt
require false cause = err cause

infixl 5 ◌>>=◌ ◌>>◌
abbrev pub ◌>>=◌ {ℓ} :
    {E : Type ℓ} {A : Type ℓ} {B : Type ℓ} → Result E A → (A → Result E B) → Result E B
ok value >>= next = next value
err cause >>= next = err cause

abbrev pub ◌>>◌ {ℓ} : {E : Type ℓ} {B : Type ℓ} → Result E (Unit {ℓ}) → Result E B → Result E B
first >> next = first >>= λ done. next

abbrev pub of_option : {E A : Type 0} → E → Option A → Result E A
of_option e none = err e
of_option e (some a) = ok a

abbrev pub map_error : {E F A : Type 0} → (E → F) → Result E A → Result F A
map_error f (ok v) = ok v
map_error f (err cause) = err (f cause)

pub Result-cases {ℓ} :
    {E : Type ℓ} {A : Type ℓ} (r : Result E A) → ((a : A) × (r ≡ ok a)) ⊎ ((e : E) × (r ≡ err e))
Result-cases (ok a) = inl (a, refl)
Result-cases (err e) = inr (e, refl)

-- A bind that succeeds has both parts succeed, also where they stay shut.
pub >>=-eq-ok {ℓ} :
    {E : Type ℓ} {A : Type ℓ} {B : Type ℓ} (first : Result E A) (next : A → Result E B) {last : B}
    → (first >>= next) ≡ ok last
    → (value : A) × (first ≡ ok value) × (next value ≡ ok last)
>>=-eq-ok (ok value) next same = (value, refl, same)
>>=-eq-ok (err cause) next same = cc

pub require-eq-ok : {E : Type 0} (b : Bool) (e : E) {u : Unit {0}} → require b e ≡ ok u → b ≡ true
require-eq-ok true e h = refl
require-eq-ok false e h = cc

-- A failure of a bind whose second part cannot fail.
pub >>=-eq-err :
    {E A B : Type 0} (m : Result E A) (f : A → B) {e : E}
    → (m >>= λ a. ok (f a)) ≡ err e
    → m ≡ err e
>>=-eq-err (ok a) f h = cc
>>=-eq-err (err e) f h = cc

pub map_error-eq-ok :
    {E F A : Type 0} (f : E → F) (m : Result E A) {a : A} → map_error f m ≡ ok a → m ≡ ok a
map_error-eq-ok f (ok v) h = ground (arith, h)
map_error-eq-ok f (err cause) h = cc

pub of_option-eq-ok :
    {E A : Type 0} (e : E) (o : Option A) {a : A} → of_option e o ≡ ok a → o ≡ some a
of_option-eq-ok e none h = cc
of_option-eq-ok e (some a) h = ground (arith, h)

module _ {E B : Type 0} where
  -- A test that a chain has passed, and the rest of the chain.
  pub passed :
      (b : Bool) (e : E) (next : Result E B) {last : B}
      → (require b e >> next) ≡ ok last
      → (b ≡ true) × (next ≡ ok last)
  passed true e next h = (refl, h)
  passed false e next h = cc

  pub denied :
      (b : Bool) (e : E) (next : Result E B) {last : B}
      → (require (not b) e >> next) ≡ ok last
      → (b ≡ false) × (next ≡ ok last)
  denied true e next h = cc
  denied false e next h = (refl, h)

-- The value of a check that passes.
pub ok_value : {E A : Type 0} {a b : A} → ◌≡◌ {A = Result E A} (ok a) (ok b) → a ≡ b
ok_value h = ground (arith, h)
