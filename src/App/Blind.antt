-- ===== src/App/Blind.antt =====
-- Steps that do the same whatever the state of MongoDB is: one rule for each way to build a step.
use sd_hw.Prelude.{ℕ, ◌≡◌, refl, ap, Bool, true, false, Text, String, if◌then◌else◌}
use sd_hw.Services.{Services}
use sd_hw.Services.Results.{Exn, Result, ok, err}
use sd_hw.App.{
  World, App, pure, throw, lift, try, catch_result, continue, ◌>>=◌, call_pg, call_redis,
  call_runtime, set_status, set_header,
}

module _ {sv : Services} where
  abbrev pub with_mongo : sv.mongo.State → World sv → World sv
  with_mongo s w = record w { mongo = s }

  -- The step neither reads nor changes MongoDB.
  pub record Blind {A : Type 0} (m : App sv A) : Type 0 where
    pub at :
        (w : World sv) (s : sv.mongo.State) → m (with_mongo s w) ≡ ((m w).0, with_mongo s (m w).1)

  -- The step gives the same result and the same response.
  pub record Alike {A : Type 0} (m : App sv A) : Type 0 where
    pub result : (w : World sv) (s : sv.mongo.State) → (m (with_mongo s w)).0 ≡ (m w).0
    pub response :
        (w : World sv) (s : sv.mongo.State) → (m (with_mongo s w)).1.response ≡ (m w).1.response

module _ {sv : Services} {A : Type 0} where
  pub Blind-pure : (a : A) → Blind (pure {sv = sv} a)
  Blind-pure a = record { at = λ w s. refl }

  pub Blind-throw : (e : Exn) → Blind (throw {sv = sv} {A = A} e)
  Blind-throw e = record { at = λ w s. refl }

  pub Blind-lift : (r : Result A) → Blind (lift {sv = sv} r)
  Blind-lift r = record { at = λ w s. refl }

  pub Blind-call_pg : (f : sv.pg.State → Result A × sv.pg.State) → Blind (call_pg sv f)
  Blind-call_pg f = record { at = λ w s. refl }

  pub Blind-call_redis : (f : sv.redis.State → Result A × sv.redis.State) → Blind (call_redis sv f)
  Blind-call_redis f = record { at = λ w s. refl }

  pub Blind-call_runtime : (f : sv.runtime.State → A × sv.runtime.State) → Blind (call_runtime sv f)
  Blind-call_runtime f = record { at = λ w s. refl }

  pub Blind-try :
      (m : App sv A) (handler : Exn → App sv A)
      → Blind m
      → ((e : Exn) → Blind (handler e))
      → Blind (try m handler)
  Blind-try m handler bm bh = record { at = λ w s. rw (bm.at w s) (after (m w).0 (m w).1 s) }
    where
      after :
          (r : Result A) (v : World sv) (s : sv.mongo.State)
          → catch_result r handler (with_mongo s v)
            ≡ ((catch_result r handler v).0, with_mongo s (catch_result r handler v).1)
      after (ok a) v s = refl
      after (err e) v s = (bh e).at v s

  pub Blind-if : (b : Bool) (m n : App sv A) → Blind m → Blind n → Blind (if b then m else n)
  Blind-if true m n bm bn = bm
  Blind-if false m n bm bn = bn

  pub Alike-if : (b : Bool) (m n : App sv A) → Alike m → Alike n → Alike (if b then m else n)
  Alike-if true m n am an = am
  Alike-if false m n am an = an

  pub Blind-Alike : (m : App sv A) → Blind m → Alike m
  Blind-Alike m bm = record {
    result = λ w s. ap (λ x. x.0) (bm.at w s);
    response = λ w s. ap (λ x. x.1.response) (bm.at w s);
  }

  -- What is caught after a step of the kind is answered alike, too.
  pub Alike-try :
      (m : App sv A) (handler : Exn → App sv A)
      → Alike m
      → ((e : Exn) (v w : World sv)
          → v.response ≡ w.response
          → ((handler e v).0 ≡ (handler e w).0)
            × ((handler e v).1.response ≡ (handler e w).1.response))
      → Alike (try m handler)
  Alike-try m handler am ah = record {
    result = λ w s.
        (after (m (with_mongo s w)).0 (m w).0 (m (with_mongo s w)).1 (m w).1 (am.result w s)
          (am.response w s)).0;
    response = λ w s.
        (after (m (with_mongo s w)).0 (m w).0 (m (with_mongo s w)).1 (m w).1 (am.result w s)
          (am.response w s)).1;
  }
    where
      after :
          (q r : Result A) (v w : World sv)
          → q ≡ r
          → v.response ≡ w.response
          → ((catch_result q handler v).0 ≡ (catch_result r handler w).0)
            × ((catch_result q handler v).1.response ≡ (catch_result r handler w).1.response)
      after q (ok a) v w same response = rw same (refl, response)
      after q (err e) v w same response = rw same (ah e v w response)

module _ {sv : Services} {A B : Type 0} where
  pub Blind-bind :
      (m : App sv A) (f : A → App sv B) → Blind m → ((a : A) → Blind (f a)) → Blind (m >>= f)
  Blind-bind m f bm bf = record { at = λ w s. rw (bm.at w s) (after (m w).0 (m w).1 s) }
    where
      after :
          (r : Result A) (v : World sv) (s : sv.mongo.State)
          → continue r f (with_mongo s v) ≡ ((continue r f v).0, with_mongo s (continue r f v).1)
      after (ok a) v s = (bf a).at v s
      after (err e) v s = refl

  pub Alike-bind :
      (m : App sv A) (f : A → App sv B) → Blind m → ((a : A) → Alike (f a)) → Alike (m >>= f)
  Alike-bind m f bm af = record {
    result = λ w s. rw (bm.at w s) (after (m w).0 (m w).1 s).0;
    response = λ w s. rw (bm.at w s) (after (m w).0 (m w).1 s).1;
  }
    where
      after :
          (r : Result A) (v : World sv) (s : sv.mongo.State)
          → ((continue r f (with_mongo s v)).0 ≡ (continue r f v).0)
            × ((continue r f (with_mongo s v)).1.response ≡ (continue r f v).1.response)
      after (ok a) v s = ((af a).result v s, (af a).response v s)
      after (err e) v s = (refl, refl)

module _ {sv : Services} where
  pub Blind-set_status : (n : ℕ) → Blind (set_status {sv = sv} n)
  Blind-set_status n = record { at = λ w s. refl }

  pub Blind-set_header : (name : String) (value : Text) → Blind (set_header {sv = sv} name value)
  Blind-set_header name value = record { at = λ w s. refl }

pub ruleset blind_rules = (
  Blind-pure, Blind-throw, Blind-lift, Blind-call_pg, Blind-call_redis, Blind-call_runtime,
  Blind-try, Blind-if, Blind-bind, Blind-set_status, Blind-set_header,
)
