-- ===== src/Handlers/Announces.antt =====
-- A handler that sends an event only on its way to a response with the status that it found.
use sd_hw.Prelude.{
  ℕ, ◌≡◌, refl, ◌∙◌, ◌⊎◌, inl, inr, Bool, true, false, Option, none, some, [], Text, maybe,
  if◌then◌else◌,
}
use sd_hw.Services.{Services}
use sd_hw.Services.Results.{Exn, Result, ok, err, json_error, invalid_argument, failure}
use sd_hw.App.{World, App, pure, continue, catch_result, ◌>>=◌, status_of, rabbit_of}
use sd_hw.App.Keeps.{Keeps}
use sd_hw.App.Raises.{Raises}
use sd_hw.Handlers.{safe_handle, on_exception, reply}

-- Either the broker is as before, or the handler returns and leaves the status.
abbrev pub SentOnSuccess : {sv : Services} → World sv → Result Text × World sv → Type 0
SentOnSuccess w r =
    (r.1.rabbit ≡ w.rabbit)
    ⊎ ((body : Text) × (r.0 ≡ ok body) × (r.1.response.status ≡ w.response.status))

pub record Announces {sv : Services} (m : App sv Text) : Type 0 where
  pub at : (w : World sv) → SentOnSuccess w (m w)

-- The step returns a body and leaves the status.
pub record Succeeds {sv : Services} (m : App sv Text) : Type 0 where
  pub at :
      (w : World sv)
      → (body : Text) × ((m w).0 ≡ ok body) × ((m w).1.response.status ≡ w.response.status)

module _ {sv : Services} where
  pub Announces-if :
      (b : Bool) (m n : App sv Text) → Announces m → Announces n → Announces (if b then m else n)
  Announces-if true m n am an = am
  Announces-if false m n am an = an

  pub Announces-maybe :
      {A : Type 0} (o : Option A) (m : App sv Text) (f : A → App sv Text)
      → Announces m
      → ((a : A) → Announces (f a))
      → Announces (maybe o m f)
  Announces-maybe none m f am af = am
  Announces-maybe (some a) m f am af = af a

  -- What comes before the event leaves the broker and the status alone.
  pub Announces-bind :
      {A : Type 0} (m : App sv A) (f : A → App sv Text)
      → Keeps rabbit_of m
      → Keeps status_of m
      → ((a : A) → Announces (f a))
      → Announces (m >>= f)
  Announces-bind {A} m f kr ks af = record { at = λ w. after w (m w).0 (m w).1 (kr.at w) (ks.at w) }
    where
      moved :
          (w w' : World sv) (r : Result Text × World sv)
          → w'.rabbit ≡ w.rabbit
          → w'.response.status ≡ w.response.status
          → SentOnSuccess w' r
          → SentOnSuccess w r
      moved w w' r k s (inl e) = inl (e ∙ k)
      moved w w' r k s (inr (body, b, e)) = inr (body, b, e ∙ s)

      after :
          (w : World sv) (r : Result A) (w' : World sv)
          → w'.rabbit ≡ w.rabbit
          → w'.response.status ≡ w.response.status
          → SentOnSuccess w (continue r f w')
      after w (ok a) w' k s = moved w w' (f a w') k s ((af a).at w')
      after w (err e) w' k s = inl k

  pub Announces-pure : (body : Text) → Announces (pure {sv = sv} body)
  Announces-pure body = record { at = λ w. inl refl }

  pub Announces-reply : (n : ℕ) (body : Text) → Announces (reply {sv = sv} n body)
  Announces-reply n body = record { at = λ w. inl refl }

  pub Succeeds-pure : (body : Text) → Succeeds (pure {sv = sv} body)
  Succeeds-pure body = record { at = λ w. (body, refl, refl) }

  -- The event, and then a response.
  pub Announces-publish :
      (m : App sv (Unit {0})) (f : Unit {0} → App sv Text)
      → Raises [] m
      → Keeps status_of m
      → ((a : Unit {0}) → Succeeds (f a))
      → Announces (m >>= f)
  Announces-publish m f rm ks sf = record { at = λ w. after w (m w).0 (m w).1 (rm.at w) (ks.at w) }
    where
      after :
          (w : World sv) (r : Result (Unit {0})) (w' : World sv)
          → ((e : Exn) → r ≡ err e → ⊥)
          → w'.response.status ≡ w.response.status
          → SentOnSuccess w (continue r f w')
      after w (ok a) w' h s = let (body, b, e) = (sf a).at w' in inr (body, b, e ∙ s)
      after w (err e) w' h s = absurd (h e refl)

  pub safe_handle-Announces : (m : App sv Text) → Announces m → Announces (safe_handle m)
  unfolding safe_handle
  safe_handle-Announces m am = record { at = λ w. after w (m w).0 (m w).1 (am.at w) }
    where
      quiet : (w w' : World sv) (e : Exn) → SentOnSuccess w (err e, w') → w'.rabbit ≡ w.rabbit
      quiet w w' e (inl k) = k
      quiet w w' e (inr (body, b, _)) = cc

      after :
          (w : World sv) (r : Result Text) (w' : World sv)
          → SentOnSuccess w (r, w')
          → SentOnSuccess w (catch_result r on_exception w')
      after w (ok body) w' h = h
      after w (err json_error) w' h = inl (quiet w w' json_error h)
      after w (err invalid_argument) w' h = inl (quiet w w' invalid_argument h)
      after w (err failure) w' h = inl (quiet w w' failure h)

pub ruleset announces_rules = (
  Announces-pure, Announces-reply, Succeeds-pure, Announces-if, Announces-maybe, Announces-bind,
  Announces-publish,
)
