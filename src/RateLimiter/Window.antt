-- ===== src/RateLimiter/Window.antt =====
-- The fixed window of `RateLimiterComponent::Check`: how many requests of a client get through while
-- its key lasts.
use sd_hw.Prelude.{
  ℕ, ◌+◌, ◌-◌, min, ◌≡◌, ◌≢◌, refl, ◌∙◌, inl, inr, true, false, List, [], ◌∷◌, arith, Text, text_eq,
  text_eq→eq, text_eq_refl, leb, if◌then◌else◌, Bool-cases,
}
use sd_hw.Prelude.Int.{ℤ, pos, ltb_ℤ, eqb_ℤ}
use sd_hw.Services.{Services, Redis}
use sd_hw.Services.Results.{Result, ok, err}
use sd_hw.App.{World}
use sd_hw.RateLimiter.{
  RateLimitResult, rate_limit_script, script_reply, start_window, rate_limit_key, check, read_reply,
}
use sd_hw.RateLimiter.Commands.{Counters, Reads, seconds}

module _ {redis : Redis} (c : Counters redis) where
  abbrev pub counter : redis.State → Text → ℕ
  counter = c.counter

  -- The values do not move when the window starts.
  pub start_window-counter :
      (k : Text) (current : ℤ) (window : ℕ) (s : redis.State)
      → ((start_window redis k current (seconds window) s).0 ≡ ok tt)
        × ((j : Text) → counter (start_window redis k current (seconds window) s).1 j ≡ counter s j)
  start_window-counter k current window s = elim (Bool-cases (eqb_ℤ current (pos 1))) [
    | inl e ↦ rw e (c.expire_reply k window s, λ j. c.expire_counter k j window s)
    | inr e ↦ rw e (refl, λ j. refl)
  ]

  -- The script run, told through the counters.
  pub record Ran (k : Text) (limit : ℕ) (s : redis.State) (r : Result (List ℤ) × redis.State)
      : Type 0 where
    pub ttl : ℤ
    pub reply : r.0 ≡ ok (script_reply (pos limit) (pos (counter s k + 1)) ttl)
    pub counted : counter r.1 k ≡ counter s k + 1
    pub others : (j : Text) → j ≢ k → counter r.1 j ≡ counter s j

  pub script-Ran :
      (k : Text) (limit : ℕ) (window : ℕ) (s : redis.State)
      → Ran k limit s (rate_limit_script redis k (pos limit) (seconds window) s)
  unfolding rate_limit_script
  script-Ran k limit window s =
      let current : ℤ = pos (counter s k + 1) in
      let s' = (redis.incr k s).1 in
      let (started, kept) = start_window-counter k current window s' in
      let (n, told) = c.ttl_reply k (start_window redis k current (seconds window) s').1 in
      rw (c.incr_reply k s, started, told)
        (record {
          ttl = if ltb_ℤ n (pos 0) then (seconds window) else n;
          reply = refl;
          counted = kept k ∙ c.incr_counter k s;
          others = λ j ne. kept j ∙ c.incr_other k j s ne;
        })

-- The value that `Check` returns after a request that is the n-th of its window.
abbrev pub verdict : ℕ → ℕ → ℤ → RateLimitResult
verdict n limit ttl = record {
  allowed = leb n limit;
  current = pos n;
  ttl = ttl;
  limit = pos limit;
}

-- The client's reading of a reply of three numbers.
read_three :
    (redis : Redis) (reply : redis.Reply) (items : List redis.Item) (a b c : ℤ)
    (r : RateLimitResult)
    → redis.get_array reply ≡ ok items
    → Reads redis (a ∷ b ∷ c ∷ []) items
    → read_reply redis reply r
      ≡ (ok tt, record r { allowed = eqb_ℤ a (pos 1); current = b; ttl = c })
unfolding read_reply
read_three redis reply (x ∷ y ∷ z ∷ []) a b c r h (p, (q, (s, _))) = rw (h, p, q, s) refl
read_three redis reply [] a b c r h reads = elim reads [ ]
read_three redis reply (x ∷ []) a b c r h reads = elim reads.1 [ ]
read_three redis reply (x ∷ y ∷ []) a b c r h reads = elim reads.1.1 [ ]
read_three redis reply (x ∷ y ∷ z ∷ u ∷ items) a b c r h reads = elim reads.1.1.1 [ ]

read_script_reply :
    (redis : Redis) (reply : redis.Reply) (items : List redis.Item) (n limit : ℕ) (ttl ttl' : ℤ)
    → redis.get_array reply ≡ ok items
    → Reads redis (script_reply (pos limit) (pos n) ttl) items
    → read_reply redis reply
        (record { allowed = true; current = pos 0; ttl = ttl'; limit = pos limit })
      ≡ (ok tt, verdict n limit ttl)
unfolding script_reply
read_script_reply redis reply items n limit ttl ttl' h reads =
    elim (Bool-cases (ltb_ℤ (pos limit) (pos n))) [
      | inl e ↦ read_three redis reply items _ _ _ _ h (rw e at reads) ∙ ground arith
      | inr e ↦ read_three redis reply items _ _ _ _ h (rw e at reads) ∙ ground arith
    ]

abbrev passed : Result RateLimitResult → ℕ
passed (ok r) = if r.allowed then 1 else 0
passed (err e) = 0

module _ {sv : Services} (c : Counters sv.redis) where
  pub record Checked (client : Text) (limit : ℕ) (w : World sv)
      (r : Result RateLimitResult × World sv) : Type 0 where
    pub ttl : ℤ
    pub result : r.0 ≡ ok (verdict (c.counter w.redis (rate_limit_key client) + 1) limit ttl)
    pub counted :
        c.counter r.1.redis (rate_limit_key client) ≡ c.counter w.redis (rate_limit_key client) + 1
    pub others :
        (j : Text) → j ≢ rate_limit_key client → c.counter r.1.redis j ≡ c.counter w.redis j

  pub check-Checked :
      (client : Text) (limit : ℕ) (window : ℕ) (w : World sv)
      → Checked client limit w (check client (pos limit) (seconds window) w)
  unfolding check
  check-Checked client limit window w =
      let ran = script-Ran c (rate_limit_key client) limit window w.redis in
      let (sent, left) =
        c.eval_runs
          (rate_limit_script sv.redis (rate_limit_key client) (pos limit) (seconds window)) w.redis
          _ ran.reply in
      rw
        (
          sent.answered,
          left,
          read_script_reply sv.redis sent.reply sent.items
              (c.counter w.redis (rate_limit_key client) + 1) limit ran.ttl (seconds window)
              sent.listed sent.reads,
        )
        (record { ttl = ran.ttl; result = refl; counted = ran.counted; others = ran.others })

  -- How many requests of a client get through, of all clients' requests in their order.
  abbrev pub admitted : Text → ℕ → ℤ → List Text → World sv → ℕ
  admitted client limit window [] w = 0
  admitted client limit window (ip ∷ ips) w =
      let r = check ip (pos limit) window w in
      (if text_eq ip client then passed r.0 else 0) + admitted client limit window ips r.1

abbrev pub occurrences : Text → List Text → ℕ
occurrences client [] = 0
occurrences client (ip ∷ ips) = (if text_eq ip client then 1 else 0) + occurrences client ips

rate_limit_key-injective : (j k : Text) → rate_limit_key j ≡ rate_limit_key k → j ≡ k
rate_limit_key-injective j k e = cc

one_more :
    (more limit before after rest : ℕ)
    → rest ≡ min more (limit - after)
    → after ≡ before + 1
    → (if leb (before + 1) limit then 1 else 0) + rest ≡ min (1 + more) (limit - before)
one_more more limit before after rest h e = ground arith

-- With a window of at least one second and a Redis that answers, of the requests of all clients
-- between two expiries of a client's key, as many of that client get through as the limit leaves
-- after those that its key has counted, and the rest are refused.
pub admitted-eq-min :
    {sv : Services} (c : Counters sv.redis) (client : Text) (limit : ℕ) (window : ℕ)
    (requests : List Text) (w : World sv)
    → admitted c client limit (seconds window) requests w
      ≡ min (occurrences client requests) (limit - c.counter w.redis (rate_limit_key client))
admitted-eq-min c client limit window [] w = omega arith
admitted-eq-min {sv} c client limit window (ip ∷ ips) w = elim (Bool-cases (text_eq ip client)) [
  | inl hit ↦ rw (hit, text_eq→eq ip client hit) (own (admitted-eq-min c client limit window ips))
  | inr miss ↦ rw miss (other miss (admitted-eq-min c client limit window ips))
]
  where
    Later : Type 0
    Later =
        (w : World sv)
        → admitted c client limit (seconds window) ips w
          ≡ min (occurrences client ips) (limit - c.counter w.redis (rate_limit_key client))

    own :
        Later
        → passed (check client (pos limit) (seconds window) w).0
            + admitted c client limit
                (seconds window)
                ips
                (check client (pos limit) (seconds window) w).1
          ≡ min (1 + occurrences client ips) (limit - c.counter w.redis (rate_limit_key client))
    own later =
        let ran = check-Checked c client limit window w in
        rw ran.result (
          one_more (occurrences client ips) limit _ _ _
            (later (check client (pos limit) (seconds window) w).1) ran.counted)

    differs : text_eq ip client ≡ false → client ≡ ip → ⊥
    differs miss e = cc (text_eq_refl ip)

    other :
        text_eq ip client ≡ false
        → Later
        → 0
            + admitted c client limit
                (seconds window)
                ips
                (check ip (pos limit) (seconds window) w).1
          ≡ min (0 + occurrences client ips) (limit - c.counter w.redis (rate_limit_key client))
    other miss later =
        let ran = check-Checked c ip limit window w in
        let kept =
          ran.others (rate_limit_key client)
            (λ e. differs miss (rate_limit_key-injective client ip e)) in
        rw (← kept) (omega (arith, later (check ip (pos limit) (seconds window) w).1))
