-- ===== src/Examples/Limits.antt =====
-- The theorems on the rate limiter, at the keys of the fixture.
use sd_hw.Prelude.{◌-◌, ◌≡◌, refl, false, min, List, [], ◌∷◌, Text, codes, arith, text_eq}
use sd_hw.Prelude.Int.{pos}
use sd_hw.Services.Results.{ok}
use sd_hw.RateLimiter.{
  RateLimitResult, rate_limit_script, rate_limit_key, script_reply, read_reply, check,
}
use sd_hw.RateLimiter.Window.{admitted, occurrences, admitted-eq-min}
use sd_hw.RateLimiter.Expiry.{Expires, check-Expires}
use sd_hw.RateLimiter.FailOpen.{Refuses, check-Refuses}
use sd_hw.Examples.Keys.{no_keys, keys_count}
use sd_hw.Handlers.Users.{handle_login}
use sd_hw.Handlers.Limits.{Limits, handle_login-Limits}
use sd_hw.Examples.Fixture.{fixture, start, request}

abbrev client : Text
client = codes "1"

abbrev other : Text
other = codes "2"

abbrev requests : List Text
requests = client ∷ other ∷ client ∷ client ∷ []

-- Two of the three requests of the client get through.
two_pass : admitted {sv = fixture} keys_count client 2 (pos 60) requests start ≡ 2
unfolding check rate_limit_script script_reply read_reply text_eq
two_pass = refl

admitted-eq-min_example :
    admitted {sv = fixture} keys_count client 2 (pos 60) requests start
    ≡ min (occurrences client requests) (2 - keys_count.counter start.redis (rate_limit_key client))
admitted-eq-min_example = admitted-eq-min {sv = fixture} keys_count client 2 59 requests start

start-Expires : Expires keys_count no_keys
start-Expires = record { at = λ k h. absurd (omega arith) }

check-Expires_example :
    Expires keys_count (check {sv = fixture} client (pos 10) (pos 60) start).1.redis
check-Expires_example = check-Expires {sv = fixture} keys_count client 10 59 start start-Expires

check-Refuses_example :
    (r : RateLimitResult) × ((check {sv = fixture} client (pos 0) (pos 60) start).0 ≡ ok r)
    × (r.limit ≡ pos 0)
    × (r.allowed ≡ false
        → (reply : fixture.redis.Reply) × ((fixture.redis.eval
              (rate_limit_script fixture.redis (rate_limit_key client) (pos 0) (pos 60))
              start.redis).0
            ≡ ok reply)
          × Refuses fixture.redis reply)
check-Refuses_example = check-Refuses {sv = fixture} client (pos 0) (pos 60) start

handle_login-Limits_example :
    Limits {sv = fixture} keys_count request start (handle_login request start)
handle_login-Limits_example = handle_login-Limits {sv = fixture} keys_count request start
