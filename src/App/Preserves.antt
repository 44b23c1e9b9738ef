-- ===== src/App/Preserves.antt =====
-- Steps that keep an invariant of the world: one rule for each way to build a step.
use sd_hw.Prelude.{Bool, true, false, Option, none, some, maybe, if◌then◌else◌}
use sd_hw.Services.{Services}
use sd_hw.Services.Results.{Exn, Result, ok, err}
use sd_hw.App.{World, App, pure, throw, lift, try, catch_result, continue, ◌>>=◌}

pub record Preserves {sv : Services} {A : Type 0} (I : World sv → Type 0) (m : App sv A)
    : Type 0 where
  pub at : (w : World sv) → I w → I (m w).1

module _ {sv : Services} {I : World sv → Type 0} where
  module _ {A : Type 0} where
    pub Preserves-pure : (a : A) → Preserves I (pure a)
    Preserves-pure a = record { at = λ w h. h }

    pub Preserves-lift : (r : Result A) → Preserves I (lift r)
    Preserves-lift r = record { at = λ w h. h }

    pub Preserves-throw : (e : Exn) → Preserves I (throw {A = A} e)
    Preserves-throw e = record { at = λ w h. h }

    pub Preserves-try :
        (m : App sv A) (handler : Exn → App sv A)
        → Preserves I m
        → ((e : Exn) → Preserves I (handler e))
        → Preserves I (try m handler)
    Preserves-try m handler pm ph = record { at = λ w h. after (m w).0 (m w).1 (pm.at w h) }
      where
        after : (r : Result A) (v : World sv) → I v → I (catch_result r handler v).1
        after (ok a) v h = h
        after (err e) v h = (ph e).at v h

    pub Preserves-if :
        (b : Bool) (m n : App sv A)
        → Preserves I m
        → Preserves I n
        → Preserves I (if b then m else n)
    Preserves-if true m n pm pn = pm
    Preserves-if false m n pm pn = pn

  module _ {A B : Type 0} where
    pub Preserves-bind :
        (m : App sv A) (f : A → App sv B)
        → Preserves I m
        → ((a : A) → Preserves I (f a))
        → Preserves I (m >>= f)
    Preserves-bind m f pm pf = record { at = λ w h. after (m w).0 (m w).1 (pm.at w h) }
      where
        after : (r : Result A) (v : World sv) → I v → I (continue r f v).1
        after (ok a) v h = (pf a).at v h
        after (err e) v h = h

    pub Preserves-maybe :
        (o : Option A) (m : App sv B) (f : A → App sv B)
        → Preserves I m
        → ((a : A) → Preserves I (f a))
        → Preserves I (maybe o m f)
    Preserves-maybe none m f pm pf = pm
    Preserves-maybe (some a) m f pm pf = pf a

pub ruleset preserves_rules = (
  Preserves-pure, Preserves-lift, Preserves-throw, Preserves-try, Preserves-if, Preserves-bind,
  Preserves-maybe,
)
