-- ===== src/App/Raises.antt =====
-- The exceptions that a step may throw: one rule for each way to build a step.
use sd_hw.Prelude.{
  ℕ, Text, String, ◌≡◌, refl, ◌⊎◌, subst, Bool, true, false, Option, none, some, List, [], ◌∷◌,
  maybe, if◌then◌else◌,
}
use sd_hw.Services.{Services}
use sd_hw.Services.Results.{Exn, Result, ok, err, or_throw}
use sd_hw.App.{
  World, App, pure, throw, lift, try, catch_result, continue, ◌>>=◌, call_runtime, set_status,
  set_header,
}

abbrev pub Listed : {A : Type 0} → A → List A → Type 0
Listed a [] = ⊥
Listed a (b ∷ bs) = (a ≡ b) ⊎ Listed a bs

pub record Raises {sv : Services} {A : Type 0} (errors : List Exn) (m : App sv A) : Type 0 where
  pub at : (w : World sv) (e : Exn) → (m w).0 ≡ err e → Listed e errors

module _ {sv : Services} {A : Type 0} {errors : List Exn} where
  pub Raises-pure : (a : A) → Raises errors (pure {sv = sv} a)
  Raises-pure a = record { at = λ w e h. cc }

  pub Raises-throw : (e : Exn) → Listed e errors → Raises errors (throw {sv = sv} {A = A} e)
  Raises-throw e l = record { at = λ w e' h. subst (λ x. Listed x errors) (cc) l }

  pub Raises-or_throw :
      (e : Exn) (o : Option A) → Listed e errors → Raises errors (lift {sv = sv} (or_throw e o))
  Raises-or_throw e none l = record { at = λ w e' h. subst (λ x. Listed x errors) (cc) l }
  Raises-or_throw e (some a) l = record { at = λ w e' h. cc }

  -- What the body throws is caught.
  pub Raises-try :
      (m : App sv A) (handler : Exn → App sv A)
      → ((e : Exn) → Raises errors (handler e))
      → Raises errors (try m handler)
  Raises-try m handler kh = record { at = λ w. after (m w).0 (m w).1 }
    where
      after :
          (r : Result A) (w' : World sv) (e : Exn)
          → (catch_result r handler w').0 ≡ err e
          → Listed e errors
      after (ok a) w' e h = cc
      after (err x) w' e h = (kh x).at w' e h

  pub Raises-if :
      (b : Bool) (m n : App sv A)
      → Raises errors m
      → Raises errors n
      → Raises errors (if b then m else n)
  Raises-if true m n km kn = km
  Raises-if false m n km kn = kn

  pub Raises-call_runtime :
      (f : sv.runtime.State → A × sv.runtime.State) → Raises errors (call_runtime sv f)
  Raises-call_runtime f = record { at = λ w e h. cc }

module _ {sv : Services} {A B : Type 0} {errors : List Exn} where
  pub Raises-bind :
      (m : App sv A) (f : A → App sv B)
      → Raises errors m
      → ((a : A) → Raises errors (f a))
      → Raises errors (m >>= f)
  Raises-bind m f km kf = record { at = λ w. after w (m w).0 (m w).1 (km.at w) }
    where
      after :
          (w : World sv) (r : Result A) (w' : World sv)
          → ((e : Exn) → r ≡ err e → Listed e errors)
          → (e : Exn) → (continue r f w').0 ≡ err e
          → Listed e errors
      after w (ok a) w' h e p = (kf a).at w' e p
      after w (err x) w' h e p = h e (cc)

  pub Raises-maybe :
      (o : Option A) (m : App sv B) (f : A → App sv B)
      → Raises errors m
      → ((a : A) → Raises errors (f a))
      → Raises errors (maybe o m f)
  Raises-maybe none m f km kf = km
  Raises-maybe (some a) m f km kf = kf a

module _ {sv : Services} {errors : List Exn} where
  pub Raises-set_status : (n : ℕ) → Raises errors (set_status {sv = sv} n)
  Raises-set_status n = record { at = λ w e h. cc }

  pub Raises-set_header :
      (name : String) (value : Text) → Raises errors (set_header {sv = sv} name value)
  Raises-set_header name value = record { at = λ w e h. cc }

-- A step whose errors are swallowed returns.
pub caught_ok :
    {sv : Services} (r : Result (Unit {0})) (w : World sv)
    → (catch_result r (λ e. pure tt) w).0 ≡ ok tt
caught_ok (ok _) w = refl
caught_ok (err e) w = refl

pub ruleset raises_rules = (
  Raises-pure, Raises-throw, Raises-or_throw, Raises-try, Raises-if, Raises-call_runtime,
  Raises-bind, Raises-maybe, Raises-set_status, Raises-set_header,
)
