-- ===== src/Handlers/Profiles.antt =====
-- The profiles of users in the cache: what the handlers of src/handlers/api_handlers.cpp rely on,
-- and when the cache agrees with the table `users`.
pub mod Preserves
pub mod Writers
pub mod Lookup
pub mod Serves
pub mod Histories
use sd_hw.Prelude.{◌≡◌, ◌≢◌, ◌⊎◌, Option, none, some, List, [], ◌∷◌, Text, is_empty}
use sd_hw.Prelude.Int.{ℤ}
use sd_hw.Models.{User, Route}
use sd_hw.Services.{Services, Postgres, Redis, Query, Row, ResultSet}
use sd_hw.Services.Results.{ok}
use sd_hw.PgStorage.Queries.{
  insert_user, select_credentials, select_user, select_users_like, insert_route,
  select_routes_by_owner, select_route,
}
use sd_hw.RateLimiter.{rate_limit_script, rate_limit_key}
use sd_hw.App.{World}
use sd_hw.Handlers.{user_key}
use sd_hw.Handlers.Histories.{Statement}
use sd_hw.Handlers.Users.{user_json}

-- The row of a user, as `read_user` reads it.
pub record IsRowOf (user : User) (row : Row) : Type 0 where
  pub login : row.column "login" ≡ ok user.login
  pub first_name : row.column "first_name" ≡ ok user.first_name
  pub last_name : row.column "last_name" ≡ ok user.last_name
  pub password : row.column "password_hash" ≡ ok user.password

-- What a SELECT by the primary key returns.
abbrev pub Shows : Option User → List Row → Type 0
Shows none rows = rows ≡ []
Shows (some user) rows = (row : Row) × (rows ≡ row ∷ []) × IsRowOf user row

-- The documented behaviour of the table `users` under the statements, of which each may fail: a
-- SELECT that succeeds shows the row of the login, and no statement changes a row that is there.
pub record UserTable (pg : Postgres) : Type 0 where
  pub user_at : pg.State → Text → Option User
  pub select_shows :
      (login : Text) (s : pg.State) (found : ResultSet)
      → (pg.execute (select_user login) s).0 ≡ ok found
      → Shows (user_at s login) found.rows
  pub row_kept :
      (q : Query) (login : Text) (user : User) (s : pg.State)
      → Statement q
      → user_at s login ≡ some user
      → user_at (pg.execute q s).1 login ≡ some user
  pub row_kept_by_route :
      (route : Route) (login : Text) (user : User) (s : pg.State)
      → user_at s login ≡ some user
      → user_at (pg.execute (insert_route route) s).1 login ≡ some user

-- The documented behaviour of Redis as a cache. Any command may fail and any key may go away at any
-- time, but a value that a key has is one that was set for it; a script touches its own key alone.
pub record TextCache (redis : Redis) : Type 0 where
  pub cached : redis.State → Text → Option Text
  pub get_hit :
      (k v : Text) (s : redis.State) → (redis.get k s).0 ≡ ok (some v) → cached s k ≡ some v
  pub get_keeps :
      (k j v : Text) (s : redis.State) → cached (redis.get k s).1 j ≡ some v → cached s j ≡ some v
  pub set_after :
      (k v j u : Text) (n : ℤ) (s : redis.State)
      → cached (redis.set k v n s).1 j ≡ some u
      → ((j ≡ k) × (u ≡ v)) ⊎ (cached s j ≡ some u)
  pub del_keeps :
      (k j v : Text) (s : redis.State) → cached (redis.del k s).1 j ≡ some v → cached s j ≡ some v
  pub eval_keeps :
      (client : Text) (limit window : ℤ) (j v : Text) (s : redis.State)
      → j ≢ rate_limit_key client
      → cached (redis.eval (rate_limit_script redis (rate_limit_key client) limit window) s).1 j
        ≡ some v
      → cached s j ≡ some v

pub record Stores (sv : Services) : Type 0 where
  pub table : UserTable sv.pg
  pub cache : TextCache sv.redis

module _ {sv : Services} (st : Stores sv) where
  -- The body is the profile of the login as the table has it.
  pub record Profile (pg : sv.pg.State) (login body : Text) : Type 0 where
    pub user : User
    pub stored : st.table.user_at pg login ≡ some user
    pub printed : body ≡ sv.json.to_string (user_json user)

  -- Every profile in the cache is the one of the table.
  pub record Coherent (w : World sv) : Type 0 where
    pub at :
        (login body : Text)
        → st.cache.cached w.redis (user_key login) ≡ some body
        → Profile w.pg login body
