-- ===== src/RateLimiter.antt =====
-- src/rate_limiter.hpp and rate_limiter.cpp: the Lua script and `RateLimiterComponent::Check`.
-- The script is a function over the commands of the server, and the numbers reach it as numbers:
-- `std::to_string` and `tonumber` are inverse for the limits of the program.
pub mod Keeps
pub mod Commands
pub mod Window
pub mod Expiry
pub mod FailOpen
use sd_hw.Prelude.{
  ℕ, Bool, true, Option, none, some, List, [], ◌∷◌, ◌++◌, Text, codes, if◌then◌else◌,
}
use sd_hw.Prelude.Int.{ℤ, pos, ltb_ℤ, eqb_ℤ}
use sd_hw.Services.{Services, Redis}
use sd_hw.Services.Results.{Result, ok, err, failure}
use sd_hw.App.{App, pure, lift, try, ◌>>=◌, call_redis}

pub record RateLimitResult : Type 0 where
  pub allowed : Bool
  pub current : ℤ
  pub ttl : ℤ
  pub limit : ℤ

-- Code over a state of type `S` that may stop with an exception: a script on the server, and the
-- assignments of `Check` to its result. What was written before stays written.
abbrev pub Script : Type 0 → Type 0 → Type 0
Script S A = S → Result A × S

module _ {S A B : Type 0} where
  abbrev and_then : Result A → (A → Script S B) → Script S B
  and_then (ok a) f s = f a s
  and_then (err e) f s = (err e, s)

  infixl 10 ◌>>>◌
  abbrev ◌>>>◌ : Script S A → (A → Script S B) → Script S B
  ◌>>>◌ m f s = let (r, s') = m s in and_then r f s'

module _ {S A : Type 0} where
  abbrev done : Result A → Script S A
  done r s = (r, s)

abbrev assign : {S : Type 0} → (S → S) → Script S (Unit {0})
assign f s = (ok tt, f s)

-- The last `if` of the script.
unfoldable pub script_reply : ℤ → ℤ → ℤ → List ℤ
script_reply limit current ttl =
    if ltb_ℤ limit current then pos 0 ∷ current ∷ ttl ∷ [] else pos 1 ∷ current ∷ ttl ∷ []

-- EXPIRE for the first request of a window.
abbrev pub start_window : (redis : Redis) → Text → ℤ → ℤ → Script redis.State (Unit {0})
start_window redis key current window =
    if eqb_ℤ current (pos 1) then redis.expire key window else done (ok tt)

-- kRateLimitScript: KEYS[1], ARGV[1] and ARGV[2]
unfoldable pub rate_limit_script : (redis : Redis) → Text → ℤ → ℤ → Script redis.State (List ℤ)
unfolding script_reply
rate_limit_script redis key limit window = redis.incr key >>> λ current.
    start_window redis key current window >>> λ _. redis.ttl key >>> λ ttl.
    done (ok (script_reply limit current (if ltb_ℤ ttl (pos 0) then window else ttl)))

-- `if (arr.size() == 3) { … }`: the assignments up to the first `GetInt` that throws are made.
unfoldable pub read_items : (redis : Redis) → List redis.Item → Script RateLimitResult (Unit {0})
read_items redis (a ∷ b ∷ c ∷ []) =
    done (redis.get_int a)
    >>> (λ flag. assign (λ r. record r { allowed = eqb_ℤ flag (pos 1) }))
    >>> (λ _. done (redis.get_int b))
    >>> (λ current. assign (λ r. record r { current = current }))
    >>> (λ _. done (redis.get_int c))
    >>> λ ttl. assign (λ r. record r { ttl = ttl })
read_items redis _ = done (ok tt)

unfoldable pub read_reply : (redis : Redis) → redis.Reply → Script RateLimitResult (Unit {0})
unfolding read_items
read_reply redis reply = done (redis.get_array reply) >>> read_items redis

-- The `catch` branch: the request is let through when Redis fails.
abbrev pub fail_open : Result (Unit {0}) × RateLimitResult → RateLimitResult
fail_open (ok _, r) = r
fail_open (err e, r) = record r { allowed = true }

abbrev pub rate_limit_key : Text → Text
rate_limit_key key = codes "rate_limit:" ++ key

module _ {sv : Services} where
  unfoldable pub check : Text → ℤ → ℤ → App sv RateLimitResult
  unfolding read_reply
  check key limit window_seconds =
      let result : RateLimitResult = record {
        allowed = true;
        current = pos 0;
        ttl = window_seconds;
        limit = limit;
      } in
      try
        (do
          reply ←
              call_redis sv (
                sv.redis.eval
                  (rate_limit_script sv.redis (rate_limit_key key) limit window_seconds))
          pure (fail_open (read_reply sv.redis reply result)))
        (λ e. pure (record result { allowed = true }))
