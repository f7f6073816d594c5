-- ===== src/Base/Results.antt =====
-- What running a piece of the kernel gives: a value, or the reason why it stops.
use mathlib.Core.Path.{◌≡◌, refl}
use mathlib.Core.Bool.{Bool, true, false}
use mathlib.Core.Logic.{◌⊎◌, inl, inr}

-- `assertion`: a failed `kassert`, which prints the expression and halts the machine.
-- `null_pointer`: a null pointer is followed. `division`: division by zero.
-- `uninitialised`: a local that no branch has set is read. `out_of_bounds`: an array
-- is read or written outside of its elements. `negative`: a count of signed type, which the model
-- keeps as a natural number, would fall below 0. `shift`: a shift by a negative count.
-- `overflow`: the value of an `int` expression is 2 ^ 31 or more, which C++ leaves undefined. `out_of_fuel`: a loop of the model was
-- given too few rounds.
pub data Fault : Type 0 where
  assertion null_pointer division uninitialised out_of_bounds negative shift overflow out_of_fuel :
      Fault

pub data Result {ℓ} (A : Type ℓ) : Type ℓ where
  ok : A → Result A
  fault : Fault → Result A

infixl 5 ◌>>=◌ ◌>>◌
abbrev pub ◌>>=◌ {ℓ κ} : {A : Type ℓ} {B : Type κ} → Result A → (A → Result B) → Result B
ok a >>= f = f a
fault e >>= f = fault e

abbrev pub ◌>>◌ {ℓ} : {B : Type ℓ} → Result (Unit {0}) → Result B → Result B
m >> k = m >>= λ _. k

-- `kassert(exp)` of bootloader/common/kassert.h.
abbrev pub kassert : Bool → Result (Unit {0})
kassert true = ok tt
kassert false = fault assertion

pub Result-cases {ℓ} :
    {A : Type ℓ} (r : Result A) → ((a : A) × (r ≡ ok a)) ⊎ ((e : Fault) × (r ≡ fault e))
Result-cases (ok a) = inl (a, refl)
Result-cases (fault e) = inr (e, refl)

-- Total correctness: the run ends with a value, and that value satisfies `P`.
pub data Returns {ℓ κ} {A : Type ℓ} (P : A → Type κ) : Result A → Type (ℓ ⊔ κ) where
  returns : {a : A} → P a → Returns P (ok a)

module _ {ℓ κ} {A : Type ℓ} {P : A → Type κ} where
  pub value : {r : Result A} → Returns P r → (a : A) × (r ≡ ok a) × P a
  value (returns {a} p) = (a, refl, p)

  pub bind {ℓ' κ'} :
      {B : Type ℓ'} {Q : B → Type κ'} {r : Result A} {f : A → Result B}
      → Returns P r
      → ((a : A) → P a → Returns Q (f a))
      → Returns Q (r >>= f)
  bind (returns {a} p) k = k a p

  pub mono {μ} : {Q : A → Type μ} {r : Result A} → Returns P r → ((a : A) → P a → Q a) → Returns Q r
  mono (returns {a} p) weaken = returns (weaken a p)
