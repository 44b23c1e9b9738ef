-- ===== src/Handlers/Limits.antt =====
-- POST /v1/login, as the rate limit shows it to the client.
use sd_hw.Prelude.{
  ℕ, ◌+◌, ◌-◌, ◌≤◌, ◌≡◌, refl, ap, ◌∙◌, inl, inr, List, [], ◌∷◌, ◌++◌, arith, Text, String, leb,
  Bool-cases,
}
use sd_hw.Prelude.Int.{ℤ, pos, ◌-ℤ◌, max_ℤ}
use sd_hw.Services.{Services}
use sd_hw.Services.Results.{Exn, json_error, invalid_argument, failure, Result, ok}
use sd_hw.Http.{Request, to_string}
use sd_hw.App.{World, set_status}
use sd_hw.App.Keeps.{Keeps, Keeps-try, PgCallsKeep, MongoCallsKeep, RuntimeCallsKeep, keeps_rules}
use sd_hw.RateLimiter.{check, rate_limit_key}
use sd_hw.RateLimiter.Commands.{Counters}
use sd_hw.RateLimiter.Keeps.{check-Keeps}
use sd_hw.RateLimiter.Window.{check-Checked}
use sd_hw.Handlers.{
  safe_handle, on_exception, set_rate_limit_headers, login_rate_limit, login_rate_window,
}
use sd_hw.Handlers.Methods.{method_rules}
use sd_hw.Handlers.Bodies.{too_many_requests}
use sd_hw.Handlers.Users.{login, handle_login}
use sd_hw.Handlers.Logins.{check_frame}

abbrev headers_of : {sv : Services} → World sv → List (String × Text)
headers_of w = w.response.headers

module _ {sv : Services} where
  pg_keeps_headers : PgCallsKeep (headers_of {sv = sv})
  pg_keeps_headers A f = record { at = λ w. refl }

  mongo_keeps_headers : MongoCallsKeep (headers_of {sv = sv})
  mongo_keeps_headers A f = record { at = λ w. refl }

  runtime_keeps_headers : RuntimeCallsKeep (headers_of {sv = sv})
  runtime_keeps_headers A f = record { at = λ w. refl }

  set_status-Keeps_headers : (n : ℕ) → Keeps (headers_of {sv = sv}) (set_status n)
  set_status-Keeps_headers n = record { at = λ w. refl }

  on_exception-Keeps_headers : (e : Exn) → Keeps (headers_of {sv = sv}) (on_exception e)
  unfolding on_exception
  on_exception-Keeps_headers json_error = record { at = λ w. refl }
  on_exception-Keeps_headers invalid_argument = record { at = λ w. refl }
  on_exception-Keeps_headers failure = record { at = λ w. refl }

  login-Keeps_headers : (request : Request) → Keeps (headers_of {sv = sv}) (login request)
  unfolding login
  login-Keeps_headers request =
      search
        (
          method_rules, keeps_rules, pg_keeps_headers, mongo_keeps_headers, runtime_keeps_headers,
          set_status-Keeps_headers,
        )
        depth 16

  safe_login-Keeps_headers :
      (request : Request) → Keeps (headers_of {sv = sv}) (safe_handle (login request))
  unfolding safe_handle
  safe_login-Keeps_headers request =
      Keeps-try (login request) on_exception (login-Keeps_headers request)
        on_exception-Keeps_headers

-- The headers of a response to the n-th request of a window, behind the others.
abbrev pub limit_headers : List (String × Text) → ℕ → ℤ → List (String × Text)
limit_headers headers n reset =
    ((headers ++ ("X-RateLimit-Limit", to_string (pos 10)) ∷ [])
      ++ ("X-RateLimit-Remaining", to_string (pos (10 - n))) ∷ [])
    ++ ("X-RateLimit-Reset", to_string reset) ∷ []

remaining : (n : ℕ) → max_ℤ (pos 0) (pos 10 -ℤ pos n) ≡ pos (10 - n)
remaining n = ground arith

module _ {sv : Services} (c : Counters sv.redis) (request : Request) (w : World sv) where
  -- The number of the request in the window of its client.
  abbrev pub turn : ℕ
  turn = c.counter w.redis (rate_limit_key request.remote_address) + 1

  pub record Limits (r : Result Text × World sv) : Type 0 where
    pub reset : ℤ
    pub headers : r.1.response.headers ≡ limit_headers w.response.headers turn reset
    pub refused :
        11 ≤ turn
        → (r.0 ≡ ok too_many_requests)
          × (r.1.response.status ≡ 429)
          × (r.1.pg ≡ w.pg)
          × (r.1.mongo ≡ w.mongo)

  check-Keeps_headers :
      (client : Text) (limit window : ℤ)
      → (check client limit window w).1.response.headers ≡ w.response.headers
  check-Keeps_headers client limit window =
      (check-Keeps {part = headers_of} (λ A f. record { at = λ v. refl }) client limit window).at w

-- With a Redis that answers, every response to a login carries the limit of ten and what is left of it
-- after this request, with a time of reset behind them; from the eleventh request of a client in a
-- window on, the answer is 429, and neither database is touched.
pub handle_login-Limits :
    {sv : Services} (c : Counters sv.redis) (request : Request) (w : World sv)
    → Limits c request w (handle_login request w)
unfolding handle_login set_rate_limit_headers
handle_login-Limits {sv} c request w =
    let client = request.remote_address in
    let ran = check-Checked c client 10 59 w in
    let (pg, mongo, _) = check_frame client login_rate_limit login_rate_window w in
    let before =
      ap (λ hs. limit_headers hs (turn c request w) ran.ttl)
        (check-Keeps_headers c request w client login_rate_limit login_rate_window) in
    elim (Bool-cases (leb (turn c request w) 10)) [
      | inl e ↦
          rw (ran.result, e, remaining)
            (record {
              reset = ran.ttl;
              headers = (safe_login-Keeps_headers request).at _ ∙ before;
              refused = λ many. absurd (ground arith);
            })
      | inr e ↦
          rw (ran.result, e, remaining)
            (record {
              reset = ran.ttl;
              headers = before;
              refused = λ many. (refl, refl, pg, mongo);
            })
    ]
