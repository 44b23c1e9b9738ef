-- ===== src/App/Keeps/Steps.antt =====
-- A step that leaves a part of the world as it was, whether it returns or throws: one rule for each
-- way to build a step.
use sd_hw.Prelude.{◌≡◌, refl, ◌∙◌, Bool, true, false, Option, none, some, maybe, if◌then◌else◌}
use sd_hw.Services.{Services}
use sd_hw.Services.Results.{Exn, Result, ok, err}
use sd_hw.App.{World, App, pure, throw, lift, try, catch_result, continue, ◌>>=◌}

pub record Keeps {sv : Services} {X A : Type 0} (part : World sv → X) (m : App sv A) : Type 0 where
  pub at : (w : World sv) → part (m w).1 ≡ part w

module _ {sv : Services} {X A : Type 0} {part : World sv → X} where
  pub Keeps-pure : (a : A) → Keeps part (pure {sv = sv} a)
  Keeps-pure a = record { at = λ w. refl }

  pub Keeps-throw : (e : Exn) → Keeps part (throw {sv = sv} {A = A} e)
  Keeps-throw e = record { at = λ w. refl }

  pub Keeps-lift : (r : Result A) → Keeps part (lift {sv = sv} r)
  Keeps-lift r = record { at = λ w. refl }

  pub Keeps-try :
      (m : App sv A) (handler : Exn → App sv A)
      → Keeps part m
      → ((e : Exn) → Keeps part (handler e))
      → Keeps part (try m handler)
  Keeps-try m handler km kh = record { at = λ w. after w (m w).0 (m w).1 (km.at w) }
    where
      after :
          (w : World sv) (r : Result A) (w' : World sv)
          → part w' ≡ part w
          → part (catch_result r handler w').1 ≡ part w
      after w (ok a) w' h = h
      after w (err e) w' h = (kh e).at w' ∙ h

  pub Keeps-if :
      (b : Bool) (m n : App sv A) → Keeps part m → Keeps part n → Keeps part (if b then m else n)
  Keeps-if true m n km kn = km
  Keeps-if false m n km kn = kn

module _ {sv : Services} {X A B : Type 0} {part : World sv → X} where
  pub Keeps-bind :
      (m : App sv A) (f : A → App sv B)
      → Keeps part m
      → ((a : A) → Keeps part (f a))
      → Keeps part (m >>= f)
  Keeps-bind m f km kf = record { at = λ w. after w (m w).0 (m w).1 (km.at w) }
    where
      after :
          (w : World sv) (r : Result A) (w' : World sv)
          → part w' ≡ part w
          → part (continue r f w').1 ≡ part w
      after w (ok a) w' h = (kf a).at w' ∙ h
      after w (err e) w' h = h

  pub Keeps-maybe :
      (o : Option A) (m : App sv B) (f : A → App sv B)
      → Keeps part m
      → ((a : A) → Keeps part (f a))
      → Keeps part (maybe o m f)
  Keeps-maybe none m f km kf = km
  Keeps-maybe (some a) m f km kf = kf a
