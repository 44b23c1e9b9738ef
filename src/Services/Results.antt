-- ===== src/Services/Results.antt =====
-- What a call that may throw returns. The program tells three kinds of exceptions apart.
use sd_hw.Prelude.{◌≡◌, refl, Option, none, some, ◌⊎◌, inl, inr}

pub data Exn : Type 0 where
  json_error invalid_argument failure : Exn

pub data Result {ℓ} (A : Type ℓ) : Type ℓ where
  ok : A → Result A
  err : Exn → Result A

-- `none` from a library stands for the exception that it throws.
abbrev pub or_throw {ℓ} : {A : Type ℓ} → Exn → Option A → Result A
or_throw e none = err e
or_throw e (some a) = ok a

pub Result-cases {ℓ} :
    {A : Type ℓ} (r : Result A) → ((a : A) × (r ≡ ok a)) ⊎ ((e : Exn) × (r ≡ err e))
Result-cases (ok a) = inl (a, refl)
Result-cases (err e) = inr (e, refl)

infixl 10 ◌>>=◌
abbrev pub ◌>>=◌ {ℓ κ} : {A : Type ℓ} {B : Type κ} → Result A → (A → Result B) → Result B
ok a >>= f = f a
err e >>= f = err e
