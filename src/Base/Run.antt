-- ===== src/Base/Run.antt =====
-- The end of a computation in C: a value, undefined behaviour, or no end, where the model runs out of
-- fuel or a wait does not return.
use mathlib.Core.Path.{◌≡◌, refl}
use mathlib.Core.Logic.{◌⊎◌, inl, inr}

pub data Run {ℓ} (A : Type ℓ) : Type ℓ where
  ok : A → Run A
  undefined : Run A
  out_of_fuel : Run A

module _ {ℓ κ} {A : Type ℓ} {B : Type κ} where
  infixl 5 ◌>>=◌
  abbrev pub ◌>>=◌ : (run : Run A) (next : A → Run B) → Run B
  out_of_fuel >>= next = out_of_fuel
  undefined >>= next = undefined
  ok a >>= next = next a

-- The run ends within its fuel, and a value that it returns satisfies `P`.
abbrev pub Ends {ℓ} : {A : Type ℓ} → (A → Type 0) → Run A → Type 0
Ends P (ok a) = P a
Ends P undefined = Unit
Ends P out_of_fuel = ⊥

-- The run ends with a value, and the value satisfies `P`.
abbrev pub Returns {ℓ} : {A : Type ℓ} → (A → Type 0) → Run A → Type 0
Returns P out_of_fuel = ⊥
Returns P undefined = ⊥
Returns P (ok a) = P a

-- Two runs in a row, each with what its value satisfies.
module _ {ℓ κ} {A : Type ℓ} {B : Type κ} (P : A → Type 0) (Q : B → Type 0) (next : A → Run B) where
  pub Ends-bind :
      (run : Run A) → ((a : A) → P a → Ends Q (next a)) → Ends P run → Ends Q (run >>= next)
  Ends-bind out_of_fuel later first = absurd first
  Ends-bind undefined later first = tt
  Ends-bind (ok a) later first = later a first

  pub Returns-bind :
      (run : Run A)
      → ((a : A) → P a → Returns Q (next a))
      → Returns P run
      → Returns Q (run >>= next)
  Returns-bind out_of_fuel later first = absurd first
  Returns-bind undefined later first = absurd first
  Returns-bind (ok a) later first = later a first

pub Returns-mono {ℓ} :
    {A : Type ℓ} (P Q : A → Type 0) (r : Run A) → Returns P r → ((a : A) → P a → Q a) → Returns Q r
Returns-mono P Q (ok a) h weaken = weaken a h
Returns-mono P Q undefined h weaken = absurd h
Returns-mono P Q out_of_fuel h weaken = absurd h

-- A computation that ends has a value or is undefined.
pub Ends-cases {ℓ} :
    {A : Type ℓ} (P : A → Type 0) (x : Run A) → Ends P x → ((a : A) × (x ≡ ok a)) ⊎ (x ≡ undefined)
Ends-cases P (ok a) h = inl (a, refl)
Ends-cases P undefined h = inr refl
Ends-cases P out_of_fuel h = absurd h

pub Returns-cases {ℓ} :
    {A : Type ℓ} (P : A → Type 0) (x : Run A) → Returns P x → (a : A) × (x ≡ ok a) × P a
Returns-cases P (ok a) h = (a, refl, h)
Returns-cases P undefined h = absurd h
Returns-cases P out_of_fuel h = absurd h
