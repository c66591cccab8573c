-- ===== src/Base/Result.antt =====
-- A Go function that returns a value and an error.
use grpm.Base.{◌≡◌, refl, Option, none, some}

-- The error type comes first: `Result E` is what a function with errors in `E` returns.
pub data Result {ℓ κ} (E : Type ℓ) (A : Type κ) : Type (ℓ ⊔ κ) where
  err : E → Result E A
  ok : A → Result E A

-- `if err != nil { return err }`, and else the rest of the function.
abbrev pub ◌>>=◌ {ℓ κ ν} :
    {E : Type ν} {A : Type ℓ} {B : Type κ} (m : Result E A) (rest : A → Result E B) → Result E B
err problem >>= rest = err problem
ok value >>= rest = rest value

infixl 5 ◌>>=◌
-- A chain that succeeds: its first part does, and so does the rest on the first part's value.
pub >>=-eq-ok {ℓ κ ν} :
    {E : Type ν} {A : Type ℓ} {B : Type κ} (first : Result E A) (rest : A → Result E B) {result : B}
    → (first >>= rest) ≡ ok result
    → (value : A) × (first ≡ ok value) × (rest value ≡ ok result)
>>=-eq-ok (err problem) rest succeeds = cc
>>=-eq-ok (ok value) rest succeeds = (value, refl, succeeds)

-- The value, or an error in place of a missing one.
abbrev pub or_error {ℓ κ} : {E : Type ℓ} {A : Type κ} → E → Option A → Result E A
or_error e none = err e
or_error e (some a) = ok a

pub or_error-eq-ok {ℓ κ} :
    {E : Type ℓ} {A : Type κ} (e : E) (o : Option A) {a : A} → or_error e o ≡ ok a → o ≡ some a
or_error-eq-ok e none h = cc
or_error-eq-ok e (some a) h = cc

pub ok-injective {ℓ κ} :
    {E : Type ℓ} {A : Type κ} {a b : A} → ◌≡◌ {A = Result E A} (ok a) (ok b) → a ≡ b
ok-injective h = cc
