-- ===== src/RateLimiter/Expiry.antt =====
-- The time to live of the counters of `RateLimiterComponent::Check`.
use sd_hw.Prelude.{
  ℕ, ◌+◌, ◌<◌, ◌≡◌, ◌≢◌, ◌∙◌, ◌⊎◌, inl, inr, true, false, arith, Text, text_eq, text_eq→eq,
  text_eq_refl, Bool-cases,
}
use sd_hw.Prelude.Int.{ℤ, pos, eqb_ℤ}
use sd_hw.Services.{Services, Redis}
use sd_hw.App.{World}
use sd_hw.RateLimiter.{start_window, rate_limit_script, rate_limit_key, check}
use sd_hw.RateLimiter.Commands.{Counters, seconds}
use sd_hw.RateLimiter.Window.{start_window-counter, script-Ran}

-- Every key with a count expires.
pub record Expires {redis : Redis} (c : Counters redis) (s : redis.State) : Type 0 where
  pub at : (k : Text) → 0 < c.counter s k → c.expires s k ≡ true

module _ {redis : Redis} (c : Counters redis) where
  -- After INCR and the start of the window.
  started :
      (k j : Text) (window : ℕ) (s : redis.State)
      → Expires c s
      → 0
        < c.counter
            (start_window redis k (pos (c.counter s k + 1)) (seconds window) (redis.incr k s).1).1
            j
      → c.expires
          (start_window redis k (pos (c.counter s k + 1)) (seconds window) (redis.incr k s).1).1
          j
        ≡ true
  started k j window s h p = elim (Bool-cases (eqb_ℤ (pos (c.counter s k + 1)) (pos 1))) [
    | inl e ↦ rw e (fresh (rw e at p) (Bool-cases (text_eq j k)))
    | inr e ↦ rw e (c.incr_expires k j s ∙ h.at j (old e (rw e at p) (Bool-cases (text_eq j k))))
  ]
    where
      s' : redis.State
      s' = (redis.incr k s).1

      other : text_eq j k ≡ false → j ≢ k
      other miss e = cc (text_eq_refl k)

      fresh :
          0 < c.counter (redis.expire k (seconds window) s').1 j
          → ((text_eq j k ≡ true) ⊎ (text_eq j k ≡ false))
          → c.expires (redis.expire k (seconds window) s').1 j ≡ true
      fresh p (inl hit) =
          rw (text_eq→eq j k hit) (c.expire_sets k window s' (omega (arith, c.incr_counter k s)))
      fresh p (inr miss) =
          c.expire_other k j window s' (other miss)
          ∙ c.incr_expires k j s
          ∙ h.at j (omega (arith, c.expire_counter k j window s', c.incr_other k j s (other miss)))

      old :
          eqb_ℤ (pos (c.counter s k + 1)) (pos 1) ≡ false
          → 0 < c.counter s' j
          → ((text_eq j k ≡ true) ⊎ (text_eq j k ≡ false))
          → 0 < c.counter s j
      old e p (inl hit) = rw (text_eq→eq j k hit) (ground arith)
      old e p (inr miss) = omega (arith, c.incr_other k j s (other miss))

  script-Expires :
      (k : Text) (limit : ℕ) (window : ℕ) (s : redis.State)
      → Expires c s
      → Expires c (rate_limit_script redis k (pos limit) (seconds window) s).1
  unfolding rate_limit_script
  script-Expires k limit window s h =
      let s' = (redis.incr k s).1 in
      let current : ℤ = pos (c.counter s k + 1) in
      let (ran, kept) = start_window-counter c k current window s' in
      let (n, told) = c.ttl_reply k (start_window redis k current (seconds window) s').1 in
      rw (c.incr_reply k s, ran, told) (record { at = λ j p. started k j window s h p })

-- With a window of at least one second and a Redis that answers, if every key with a count has a time
-- to live, this is still so after a check.
pub check-Expires :
    {sv : Services} (c : Counters sv.redis) (client : Text) (limit : ℕ) (window : ℕ) (w : World sv)
    → Expires c w.redis
    → Expires c (check client (pos limit) (seconds window) w).1.redis
unfolding check
check-Expires {sv} c client limit window w h =
    let key = rate_limit_key client in
    let (sent, left) =
      c.eval_runs (rate_limit_script sv.redis key (pos limit) (seconds window)) w.redis _
        (script-Ran c key limit window w.redis).reply in
    rw (sent.answered, left) (script-Expires c key limit window w.redis h)
