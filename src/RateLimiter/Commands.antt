-- ===== src/RateLimiter/Commands.antt =====
-- What the script relies on: the documented behaviour of INCR, EXPIRE, TTL and EVAL on counters, told
-- through the value that a key holds (0 for a missing key) and whether the key has a time to live.
use sd_hw.Prelude.{ℕ, suc, ◌+◌, ◌<◌, ◌≡◌, ◌≢◌, Bool, true, List, [], ◌∷◌, Text}
use sd_hw.Prelude.Int.{ℤ, pos}
use sd_hw.Services.{Redis}
use sd_hw.Services.Results.{Result, ok}

-- A time of at least one second.
abbrev pub seconds : ℕ → ℤ
seconds n = pos (suc n)

-- The client reads the items as the numbers.
abbrev pub Reads : (redis : Redis) → List ℤ → List redis.Item → Type 0
Reads redis [] [] = Unit
Reads redis (n ∷ l) (i ∷ items) = (redis.get_int i ≡ ok n) × Reads redis l items
Reads redis _ _ = ⊥

-- A reply that the client reads as the numbers.
pub record Sends (redis : Redis) (l : List ℤ) (r : Result redis.Reply) : Type 0 where
  pub reply : redis.Reply
  pub items : List redis.Item
  pub answered : r ≡ ok reply
  pub listed : redis.get_array reply ≡ ok items
  pub reads : Reads redis l items

pub record Counters (redis : Redis) : Type 0 where
  pub counter : redis.State → Text → ℕ
  pub expires : redis.State → Text → Bool
  -- INCR adds one to the value of the key, and leaves its time to live alone.
  pub incr_reply : (k : Text) (s : redis.State) → (redis.incr k s).0 ≡ ok (pos (counter s k + 1))
  pub incr_counter : (k : Text) (s : redis.State) → counter (redis.incr k s).1 k ≡ counter s k + 1
  pub incr_other :
      (k j : Text) (s : redis.State) → j ≢ k → counter (redis.incr k s).1 j ≡ counter s j
  pub incr_expires : (k j : Text) (s : redis.State) → expires (redis.incr k s).1 j ≡ expires s j
  -- EXPIRE with a positive time, on a key that is there, sets its time to live, and leaves all values
  -- alone.
  pub expire_reply : (k : Text) (n : ℕ) (s : redis.State) → (redis.expire k (seconds n) s).0 ≡ ok tt
  pub expire_counter :
      (k j : Text) (n : ℕ) (s : redis.State)
      → counter (redis.expire k (seconds n) s).1 j ≡ counter s j
  pub expire_sets :
      (k : Text) (n : ℕ) (s : redis.State)
      → 0 < counter s k
      → expires (redis.expire k (seconds n) s).1 k ≡ true
  pub expire_other :
      (k j : Text) (n : ℕ) (s : redis.State)
      → j ≢ k
      → expires (redis.expire k (seconds n) s).1 j ≡ expires s j
  -- TTL answers a number, and changes nothing.
  pub ttl_reply : (k : Text) (s : redis.State) → (n : ℤ) × (redis.ttl k s ≡ (ok n, s))
  -- EVAL runs the script once, with nothing in between, and sends the numbers that it returns.
  pub eval_runs :
      (script : redis.State → Result (List ℤ) × redis.State) (s : redis.State) (l : List ℤ)
      → (script s).0 ≡ ok l
      → Sends redis l (redis.eval script s).0 × ((redis.eval script s).1 ≡ (script s).1)
