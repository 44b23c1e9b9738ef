-- ===== src/RateLimiter/FailOpen.antt =====
-- When `RateLimiterComponent::Check` refuses a request.
use sd_hw.Prelude.{◌≡◌, refl, inl, inr, true, false, List, [], ◌∷◌, arith, Text}
use sd_hw.Prelude.Int.{ℤ, pos, eqb_ℤ}
use sd_hw.Services.{Services, Redis}
use sd_hw.Services.Results.{ok, Result-cases}
use sd_hw.App.{World}
use sd_hw.RateLimiter.{
  RateLimitResult, rate_limit_script, rate_limit_key, read_reply, read_items, fail_open, check,
}

-- A reply that refuses: the client reads three integers from it, the first of them not 1.
pub record Refuses (redis : Redis) (reply : redis.Reply) : Type 0 where
  pub first : redis.Item
  pub second : redis.Item
  pub third : redis.Item
  pub flag : ℤ
  pub current : ℤ
  pub ttl : ℤ
  pub listed : redis.get_array reply ≡ ok (first ∷ second ∷ third ∷ [])
  pub read_flag : redis.get_int first ≡ ok flag
  pub read_current : redis.get_int second ≡ ok current
  pub read_ttl : redis.get_int third ≡ ok ttl
  pub refused : eqb_ℤ flag (pos 1) ≡ false

module _ (redis : Redis) (r : RateLimitResult) (allowed : r.allowed ≡ true) where
  read_items-Refuses :
      (reply : redis.Reply) (items : List redis.Item)
      → redis.get_array reply ≡ ok items
      → (fail_open (read_items redis items r)).allowed ≡ false
      → Refuses redis reply
  unfolding read_items
  read_items-Refuses reply [] h p = cc
  read_items-Refuses reply (a ∷ []) h p = cc
  read_items-Refuses reply (a ∷ b ∷ []) h p = cc
  read_items-Refuses reply (a ∷ b ∷ c ∷ d ∷ items) h p = cc
  read_items-Refuses reply (a ∷ b ∷ c ∷ []) h p = elim (Result-cases (redis.get_int a)) [
    | inr (x, e) ↦ absurd (cc)
    | inl (flag, e) ↦ elim (Result-cases (redis.get_int b)) [
      | inr (x, e') ↦ absurd (cc)
      | inl (current, e') ↦ elim (Result-cases (redis.get_int c)) [
        | inr (x, e'') ↦ absurd (cc)
        | inl (ttl, e'') ↦ record {
          first = a;
          second = b;
          third = c;
          flag = flag;
          current = current;
          ttl = ttl;
          listed = h;
          read_flag = e;
          read_current = e';
          read_ttl = e'';
          refused = rw (e, e', e'') at p;
        }
      ]
    ]
  ]

  read_reply-Refuses :
      (reply : redis.Reply)
      → (fail_open (read_reply redis reply r)).allowed ≡ false
      → Refuses redis reply
  unfolding read_reply
  read_reply-Refuses reply p = elim (Result-cases (redis.get_array reply)) [
    | inl (items, e) ↦ read_items-Refuses reply items e (rw e at p)
    | inr (x, e) ↦ absurd (cc)
  ]

limit-read_items :
    (redis : Redis) (items : List redis.Item) (r : RateLimitResult)
    → (fail_open (read_items redis items r)).limit ≡ r.limit
unfolding read_items
limit-read_items redis (a ∷ b ∷ c ∷ []) r = ground arith
limit-read_items redis (a ∷ b ∷ c ∷ d ∷ items) r = refl
limit-read_items redis (a ∷ b ∷ []) r = refl
limit-read_items redis (a ∷ []) r = refl
limit-read_items redis [] r = refl

limit-read_reply :
    (redis : Redis) (reply : redis.Reply) (r : RateLimitResult)
    → (fail_open (read_reply redis reply r)).limit ≡ r.limit
unfolding read_reply
limit-read_reply redis reply r = elim (Result-cases (redis.get_array reply)) [
  | inl (items, e) ↦ rw e (limit-read_items redis items r)
  | inr (x, e) ↦ rw e refl
]

-- Whatever Redis does, the check returns a verdict with the limit that was asked for; it refuses
-- only if Redis answered and the client reads the answer as three integers, the first of them not 1.
pub check-Refuses :
    {sv : Services} (client : Text) (limit window : ℤ) (w : World sv)
    → (r : RateLimitResult) × ((check client limit window w).0 ≡ ok r)
      × (r.limit ≡ limit)
      × (r.allowed ≡ false
          → (reply : sv.redis.Reply) × ((sv.redis.eval
                (rate_limit_script sv.redis (rate_limit_key client) limit window)
                w.redis).0
              ≡ ok reply)
            × Refuses sv.redis reply)
unfolding check
check-Refuses {sv} client limit window w =
    elim (Result-cases
      (sv.redis.eval (rate_limit_script sv.redis (rate_limit_key client) limit window) w.redis).0) [
        | inl (reply, e) ↦ rw e (
          _,
          refl,
          limit-read_reply sv.redis reply _,
          λ p. (reply, refl, read_reply-Refuses sv.redis _ refl reply p),
        )
        | inr (x, e) ↦ rw e (_, refl, refl, λ p. cc)
      ]
