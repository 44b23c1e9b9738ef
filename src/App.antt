-- ===== src/App.antt =====
-- The effects of a handler: the states of the services and the response that it fills in. What a
-- step has changed before an exception stays changed.
pub mod Keeps
pub mod Raises
pub mod Preserves
pub mod Blind
use sd_hw.Prelude.{ℕ, some, [], ◌∷◌, ◌++◌, Text, String}
use sd_hw.Services.{Services}
use sd_hw.Services.Results.{Exn, Result, ok, err}
use sd_hw.Http.{Response}

module _ (sv : Services) where
  pub record World : Type 0 where
    pub pg : sv.pg.State
    pub mongo : sv.mongo.State
    pub redis : sv.redis.State
    pub rabbit : sv.rabbit.State
    pub runtime : sv.runtime.State
    pub response : Response

module _ {sv : Services} where
  abbrev pub pg_of : World sv → sv.pg.State
  pg_of w = w.pg

  abbrev pub mongo_of : World sv → sv.mongo.State
  mongo_of w = w.mongo

  abbrev pub redis_of : World sv → sv.redis.State
  redis_of w = w.redis

  abbrev pub rabbit_of : World sv → sv.rabbit.State
  rabbit_of w = w.rabbit

  abbrev pub status_of : World sv → ℕ
  status_of w = w.response.status

  abbrev pub response_of : World sv → Response
  response_of w = w.response

abbrev pub App : Services → Type 0 → Type 0
App sv A = World sv → Result A × World sv

module _ {sv : Services} {A : Type 0} where
  abbrev pub pure : A → App sv A
  pure a w = (ok a, w)

  abbrev pub throw : Exn → App sv A
  throw e w = (err e, w)

  abbrev pub lift : Result A → App sv A
  lift r w = (r, w)

  abbrev pub catch_result : Result A → (Exn → App sv A) → App sv A
  catch_result (ok a) handler w = (ok a, w)
  catch_result (err e) handler w = handler e w

  -- try { m } catch (const std::exception& e) { handler }
  abbrev pub try : App sv A → (Exn → App sv A) → App sv A
  try m handler w = let (r, w') = m w in catch_result r handler w'

module _ {sv : Services} {A B : Type 0} where
  abbrev pub continue : Result A → (A → App sv B) → App sv B
  continue (ok a) f w = f a w
  continue (err e) f w = (err e, w)

  infixl 10 ◌>>=◌ ◌>>◌
  abbrev pub ◌>>=◌ : App sv A → (A → App sv B) → App sv B
  ◌>>=◌ m f w = let (r, w') = m w in continue r f w'

  abbrev pub ◌>>◌ : App sv A → App sv B → App sv B
  m >> n = m >>= λ _. n

-- A call of one service changes the state of that service alone.
module _ (sv : Services) {A : Type 0} where
  abbrev pub call_pg : (sv.pg.State → Result A × sv.pg.State) → App sv A
  call_pg f w = let (r, s) = f w.pg in (r, record w { pg = s })

  abbrev pub call_mongo : (sv.mongo.State → Result A × sv.mongo.State) → App sv A
  call_mongo f w = let (r, s) = f w.mongo in (r, record w { mongo = s })

  abbrev pub call_redis : (sv.redis.State → Result A × sv.redis.State) → App sv A
  call_redis f w = let (r, s) = f w.redis in (r, record w { redis = s })

  abbrev pub call_rabbit : (sv.rabbit.State → Result A × sv.rabbit.State) → App sv A
  call_rabbit f w = let (r, s) = f w.rabbit in (r, record w { rabbit = s })

  -- The clock and the generators do not throw.
  abbrev pub call_runtime : (sv.runtime.State → A × sv.runtime.State) → App sv A
  call_runtime f w = let (a, s) = f w.runtime in (ok a, record w { runtime = s })

module _ {sv : Services} where
  -- request.SetResponseStatus
  abbrev pub set_status : ℕ → App sv (Unit {0})
  set_status status w = (ok tt, record w { response = record w.response { status = status } })

  -- response.SetHeader; the program sets each header once
  abbrev pub set_header : String → Text → App sv (Unit {0})
  set_header name value w = (
    ok tt,
    record w {
      response = record w.response { headers = w.response.headers ++ (name, value) ∷ [] };
    },
  )

  -- context.SetData("X-User-Login", …)
  abbrev pub set_user_login : Text → App sv (Unit {0})
  set_user_login login w =
      (ok tt, record w { response = record w.response { user_login = some login } })
