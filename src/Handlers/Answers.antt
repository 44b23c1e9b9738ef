-- ===== src/Handlers/Answers.antt =====
-- The statuses that a handler may leave, and the exceptions that it may throw.
use sd_hw.Prelude.{
  ℕ, ◌≡◌, refl, subst, inl, inr, Bool, true, false, Option, none, some, List, [], ◌∷◌, Text, maybe,
  if◌then◌else◌,
}
use sd_hw.Services.{Services}
use sd_hw.Services.Results.{Exn, Result, ok, err, json_error, invalid_argument, failure}
use sd_hw.App.{World, App, pure, continue, catch_result, ◌>>=◌, status_of}
use sd_hw.App.Keeps.{Keeps}
use sd_hw.App.Raises.{Listed, Raises}
use sd_hw.Handlers.{safe_handle, on_exception, reply}

module _ {sv : Services} (errors : List Exn) (codes : List ℕ) where
  -- A step that returns leaves the status that it found, or one of the codes.
  abbrev Answer : ℕ → Result Text × World sv → Type 0
  Answer status (ok body, w) = Listed w.response.status (status ∷ codes)
  Answer status (err e, w) = Listed e errors

  pub record Answers (m : App sv Text) : Type 0 where
    pub at : (w : World sv) → Answer w.response.status (m w)

module _ {sv : Services} {errors : List Exn} {codes : List ℕ} where
  pub Answers-pure : (body : Text) → Answers errors codes (pure {sv = sv} body)
  Answers-pure body = record { at = λ w. inl refl }

  pub Answers-reply :
      (status : ℕ) (body : Text)
      → Listed status codes
      → Answers errors codes (reply {sv = sv} status body)
  Answers-reply status body l = record { at = λ w. inr l }

  pub Answers-if :
      (b : Bool) (m n : App sv Text)
      → Answers errors codes m
      → Answers errors codes n
      → Answers errors codes (if b then m else n)
  Answers-if true m n am an = am
  Answers-if false m n am an = an

  pub Answers-maybe :
      {A : Type 0} (o : Option A) (m : App sv Text) (f : A → App sv Text)
      → Answers errors codes m
      → ((a : A) → Answers errors codes (f a))
      → Answers errors codes (maybe o m f)
  Answers-maybe none m f am af = am
  Answers-maybe (some a) m f am af = af a

  pub Answers-bind :
      {A : Type 0} (m : App sv A) (f : A → App sv Text)
      → Keeps status_of m
      → Raises errors m
      → ((a : A) → Answers errors codes (f a))
      → Answers errors codes (m >>= f)
  Answers-bind {A} m f km rm af = record { at = λ w. after w (m w).0 (m w).1 (km.at w) (rm.at w) }
    where
      after :
          (w : World sv) (r : Result A) (w' : World sv)
          → w'.response.status ≡ w.response.status
          → ((e : Exn) → r ≡ err e → Listed e errors)
          → Answer errors codes w.response.status (continue r f w')
      after w (ok a) w' k h = subst (λ (n : ℕ). Answer errors codes n (f a w')) k ((af a).at w')
      after w (err e) w' k h = h e refl

pub ruleset answers_rules = (Answers-pure, Answers-reply, Answers-if, Answers-maybe, Answers-bind)

-- What `SafeHandle` makes of an exception.
abbrev pub status_for : Exn → ℕ
status_for json_error = 400
status_for invalid_argument = 400
status_for failure = 500

abbrev Covers : List Exn → List ℕ → Type 0
Covers errors codes = (e : Exn) → Listed e errors → Listed (status_for e) codes

-- What leaves the server: some body, and one of the codes or the status from before.
abbrev pub Responds : {sv : Services} → List ℕ → ℕ → Result Text × World sv → Type 0
Responds codes status r =
    (body : Text) × (r.0 ≡ ok body) × Listed r.1.response.status (status ∷ codes)

module _ {sv : Services} {codes : List ℕ} where
  pub safe_handle-Answers :
      (errors : List Exn) (m : App sv Text)
      → Answers errors codes m
      → Covers errors codes
      → Answers [] codes (safe_handle m)
  unfolding safe_handle
  safe_handle-Answers errors m am covers = record { at = λ w. after w (m w).0 (m w).1 (am.at w) }
    where
      after :
          (w : World sv) (r : Result Text) (w' : World sv)
          → Answer errors codes w.response.status (r, w')
          → Answer [] codes w.response.status (catch_result r on_exception w')
      after w (ok body) w' h = h
      after w (err json_error) w' h = inr (covers json_error h)
      after w (err invalid_argument) w' h = inr (covers invalid_argument h)
      after w (err failure) w' h = inr (covers failure h)

  pub Answers-Responds :
      (m : App sv Text)
      → Answers [] codes m
      → (w : World sv) → Responds codes w.response.status (m w)
  Answers-Responds m am w = after (m w).0 (m w).1 (am.at w)
    where
      after :
          (r : Result Text) (w' : World sv)
          → Answer [] codes w.response.status (r, w')
          → Responds codes w.response.status (r, w')
      after (ok body) w' h = (body, refl, h)
      after (err e) w' h = absurd h
