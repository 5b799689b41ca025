-- ===== src/Common/Results.antt =====
-- The outcome of a Go call: a value, an error value that is returned, a panic, or no outcome within
-- the fuel that a `for` loop was given.
use mathlib.Core.Path.{◌≡◌, refl}

-- The errors that the modelled code returns. Their texts are not modelled.
pub data Error : Type 0 where
  too_many_fields unknown_field bad_separator bad_config end_of_file file_error : Error

pub data Result {ℓ} (A : Type ℓ) : Type ℓ where
  ok : A → Result A
  err : Error → Result A
  panic out_of_fuel : Result A

infixl 5 ◌>>=◌
abbrev pub ◌>>=◌ {ℓ κ} : {A : Type ℓ} {B : Type κ} → Result A → (A → Result B) → Result B
ok a >>= f = f a
err e >>= f = err e
panic >>= f = panic
out_of_fuel >>= f = out_of_fuel

pub ok-injective {ℓ} : {A : Type ℓ} {a b : A} → ok a ≡ ok b → a ≡ b
ok-injective h = cc

-- A chain that returns `b`: what its first call returned, and that the rest returns `b` from there.
pub record Returned {ℓ κ} {A : Type ℓ} {B : Type κ} (m : Result A) (k : A → Result B) (b : B)
    : Type (ℓ ⊔ κ) where
  pub value : A
  pub call : m ≡ ok value
  pub rest : k value ≡ ok b

pub returned {ℓ κ} :
    {A : Type ℓ} {B : Type κ} {b : B} (m : Result A) (k : A → Result B)
    → (m >>= k) ≡ ok b
    → Returned m k b
returned (ok a) k e = record { value = a; call = refl; rest = e }
returned (err x) k e = cc
returned panic k e = cc
returned out_of_fuel k e = cc
