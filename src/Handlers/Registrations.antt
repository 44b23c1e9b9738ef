-- ===== src/Handlers/Registrations.antt =====
-- POST /v1/users: what each answer means.
use sd_hw.Prelude.{
  arith, ℕ, ◌==◌, ◌≡◌, refl, ◌⊎◌, inl, inr, false, some, Text, Bool-cases, Option-cases,
}
use sd_hw.Models.{User}
use sd_hw.Services.{Services, ResultSet}
use sd_hw.Services.Values.{Json}
use sd_hw.Services.Results.{Exn, Result, ok, err, Result-cases}
use sd_hw.Http.{Request}
use sd_hw.App.{World}
use sd_hw.PgStorage.{add_user}
use sd_hw.PgStorage.Queries.{insert_user}
use sd_hw.RedisCache.Steps.{invalidate_lem}
use sd_hw.Events.{publish_user_created}
use sd_hw.Events.Keeps.{publish_user_created-ok}
use sd_hw.Handlers.{safe_handle, user_key}
use sd_hw.Handlers.Bodies.{invalid_json, user_exists, status_ok}
use sd_hw.Handlers.Users.{create_user, handle_create_user}

module _ (sv : Services) where
  -- The body of the request is a JSON object with the four members of a user.
  pub record AsksUser (request : Request) (user : User) : Type 0 where
    pub json : Json
    pub parsed : sv.json.from_string request.body ≡ some json
    pub login_read : sv.json.string_field json "login" ≡ some user.login
    pub first_name_read : sv.json.string_field json "first_name" ≡ some user.first_name
    pub last_name_read : sv.json.string_field json "last_name" ≡ some user.last_name
    pub password_read : sv.json.string_field json "password" ≡ some user.password

module _ {sv : Services} where
  abbrev with_status : ℕ → World sv → World sv
  with_status n w = record w { response = record w.response { status = n } }

  module _ (request : Request) (w : World sv) where
    -- The body is none: no JSON, or a member is missing.
    pub record Malformed (r : Result Text × World sv) : Type 0 where
      pub no_user : (user : User) → AsksUser sv request user → ⊥
      pub answer : r ≡ (ok invalid_json, with_status 400 w)

    -- PostgreSQL has inserted the row; the cached profile is dropped and the event is sent.
    pub record Added (r : Result Text × World sv) : Type 0 where
      pub user : User
      pub asks : AsksUser sv request user
      pub found : ResultSet
      pub inserted : (sv.pg.execute (insert_user user) w.pg).0 ≡ ok found
      pub one_row : found.rows_affected ≡ 1
      pub answer : r ≡ (
        ok status_ok,
        (publish_user_created user (record w {
          pg = (sv.pg.execute (insert_user user) w.pg).1;
          redis = (sv.redis.del (user_key user.login) w.redis).1;
        })).1,
      )

    -- PostgreSQL has inserted nothing, or has failed in any way.
    pub record Refused (r : Result Text × World sv) : Type 0 where
      pub user : User
      pub asks : AsksUser sv request user
      pub cause :
          ((found : ResultSet) × ((sv.pg.execute (insert_user user) w.pg).0 ≡ ok found)
            × ((found.rows_affected == 1) ≡ false))
          ⊎ ((e : Exn) × ((sv.pg.execute (insert_user user) w.pg).0 ≡ err e))
      pub answer : r ≡ (
        ok user_exists,
        with_status 409 (record w { pg = (sv.pg.execute (insert_user user) w.pg).1 }),
      )

    abbrev pub Registers : Result Text × World sv → Type 0
    Registers r = Added r ⊎ (Refused r ⊎ Malformed r)

    stored : (user : User) → AsksUser sv request user → Registers (handle_create_user request w)
    unfolding handle_create_user create_user safe_handle add_user
    stored user asks = elim (Result-cases (sv.pg.execute (insert_user user) w.pg).0) [
      | inl (found, e) ↦ elim (Bool-cases (found.rows_affected == 1)) [
        | inl one ↦
            rw
              (
                asks.parsed, asks.login_read, asks.first_name_read, asks.last_name_read,
                asks.password_read, e, one, invalidate_lem, publish_user_created-ok,
              )
              (inl (record {
                user = user;
                asks = asks;
                found = found;
                inserted = e;
                one_row = ground arith;
                answer = refl;
              }))
        | inr other ↦
            rw
              (
                asks.parsed, asks.login_read, asks.first_name_read, asks.last_name_read,
                asks.password_read, e, other,
              )
              (inr (
                inl (record {
                  user = user;
                  asks = asks;
                  cause = inl (found, e, other);
                  answer = refl;
                })))
      ]
      | inr (x, e) ↦
          rw
            (
              asks.parsed, asks.login_read, asks.first_name_read, asks.last_name_read,
              asks.password_read, e,
            )
            (inr (inl (record { user = user; asks = asks; cause = inr (x, e); answer = refl })))
    ]

-- A registration with a body that is no JSON object with the four members of a user is answered with
-- 400 and changes nothing else; one that PostgreSQL inserts as one row is answered with "ok", drops the
-- cached profile of the login and sends the event; and one that PostgreSQL does not insert, or that
-- fails there in any way, is answered with 409 "User already exists", and nothing is sent.
pub handle_create_user-Registers :
    {sv : Services} (request : Request) (w : World sv)
    → Registers request w (handle_create_user request w)
unfolding handle_create_user create_user safe_handle
handle_create_user-Registers {sv} request w =
    elim (Option-cases (sv.json.from_string request.body)) [
      | inl e ↦ rw e (inr (inr (record { no_user = λ user asks. cc; answer = refl })))
      | inr (json, parsed) ↦ elim (Option-cases (sv.json.string_field json "login")) [
        | inl e ↦ rw (parsed, e) (inr (inr (record { no_user = λ user asks. cc; answer = refl })))
        | inr (login, l) ↦ elim (Option-cases (sv.json.string_field json "first_name")) [
          | inl e ↦
              rw (parsed, l, e) (inr (inr (record { no_user = λ user asks. cc; answer = refl })))
          | inr (first_name, f) ↦ elim (Option-cases (sv.json.string_field json "last_name")) [
            | inl e ↦
                rw (parsed, l, f, e)
                  (inr (inr (record { no_user = λ user asks. cc; answer = refl })))
            | inr (last_name, n) ↦ elim (Option-cases (sv.json.string_field json "password")) [
              | inl e ↦
                  rw (parsed, l, f, n, e)
                    (inr (inr (record { no_user = λ user asks. cc; answer = refl })))
              | inr (password, p) ↦
                  stored request w
                    (record {
                      login = login;
                      first_name = first_name;
                      last_name = last_name;
                      password = password;
                    })
                    (record {
                      json = json;
                      parsed = parsed;
                      login_read = l;
                      first_name_read = f;
                      last_name_read = n;
                      password_read = p;
                    })
            ]
          ]
        ]
      ]
    ]
