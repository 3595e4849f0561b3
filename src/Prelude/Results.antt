-- ===== src/Prelude/Results.antt =====
-- Results of code that can crash: a failed `assert`, a null pointer, a read out of bounds, an
-- exception, `abort`; and the end of a fuel, which is the model's own.
use mathlib.Core.Path.{◌≡◌, refl}
use mathlib.Core.Bool.{Bool, true, false}
use mathlib.Core.Option.{Option, none, some}

pub data Fault : Type 0 where
  assert_failed null_node null_message out_of_bounds logic_error runtime_error aborted out_of_fuel :
      Fault

pub data Result {ℓ} (A : Type ℓ) : Type ℓ where
  ok : A → Result A
  err : Fault → Result A

-- `assert(b)`: a call that returns nothing, or the fault.
abbrev pub guard : Bool → Fault → Result (Unit {0})
guard false fault = err fault
guard true fault = ok tt

infixl 5 ◌>>=◌ ◌>>◌
abbrev pub ◌>>=◌ {ℓ κ} : {A : Type ℓ} {B : Type κ} → Result A → (A → Result B) → Result B
err fault >>= k = err fault
ok value >>= k = k value

abbrev pub ◌>>◌ {ℓ} : {B : Type ℓ} → Result (Unit {0}) → Result B → Result B
call >> rest = call >>= λ _. rest

abbrev pub or_fail {ℓ} : {A : Type ℓ} → Option A → Fault → Result A
or_fail none e = err e
or_fail (some a) e = ok a

-- The code returns, and what it returns satisfies `P`.
abbrev pub Returns {ℓ} : {A : Type ℓ} → Result A → (A → Type 0) → Type 0
Returns (ok a) P = P a
Returns (err e) P = ⊥

-- A step that returns, followed by one that does.
pub Returns_bind {ℓ κ} :
    {A : Type ℓ} {B : Type κ} (m : Result A) (f : A → Result B) (P : A → Type 0) (Q : B → Type 0)
    → Returns m P
    → ((a : A) → P a → Returns (f a) Q)
    → Returns (m >>= f) Q
Returns_bind (ok a) f P Q p k = k a p
Returns_bind (err e) f P Q p k = absurd p

pub Returns_map {ℓ} :
    {A : Type ℓ} (m : Result A) (P Q : A → Type 0)
    → Returns m P
    → ((a : A) → P a → Q a)
    → Returns m Q
Returns_map (ok a) P Q p k = k a p
Returns_map (err e) P Q p k = absurd p

-- Inversion of a chain that returns.
pub bind-ok {ℓ κ} :
    {A : Type ℓ} {B : Type κ} (call : Result A) (k : A → Result B) {b : B}
    → (call >>= k) ≡ ok b
    → (value : A) × (call ≡ ok value) × (k value ≡ ok b)
bind-ok (err fault) k h = cc
bind-ok (ok value) k h = (value, refl, h)

pub ok-injective {ℓ} : {A : Type ℓ} {a b : A} → ok a ≡ ok b → a ≡ b
ok-injective h = cc
