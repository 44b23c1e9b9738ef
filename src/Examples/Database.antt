-- ===== src/Examples/Database.antt =====
-- A PostgreSQL of two tables that answers the statements of the program.
use Prim.Native.String.{String}
use text.Mathlib.Text.{◌==◌}
use sd_hw.Prelude.{
  ℕ, ◌+◌, Bool, ◌&&◌, List, [], ◌∷◌, map, Text, text_eq, keep_if, is_empty, if◌then◌else◌,
}
use sd_hw.Prelude.Int.{pos}
use sd_hw.Models.{User, Route}
use sd_hw.Services.{Postgres, Row, ResultSet}
use sd_hw.Services.Results.{Result, ok, err, failure}
use sd_hw.Http.{to_string}
use sd_hw.PgStorage.Queries.{
  insert_user, select_credentials, select_user, insert_route, select_routes_by_owner, select_route,
}

pub record Tables : Type 0 where
  pub users : List User
  pub routes : List Route
  pub next_route : ℕ

abbrev pub user_row : User → Row
user_row u = record {
  column = λ name.
      if name == "login"
      then ok u.login
      else if name == "first_name"
      then ok u.first_name
      else if name == "last_name"
      then ok u.last_name
      else if name == "password_hash"
      then ok u.password
      else err failure;
}

abbrev pub route_row : Route → Row
route_row r = record {
  column = λ name.
      if name == "id"
      then ok r.id
      else if name == "owner_login"
      then ok r.owner_login
      else if name == "points"
      then ok r.points
      else err failure;
}

abbrev rows : List Row → ResultSet
rows rs = record { rows = rs; rows_affected = 0 }

abbrev Answer : Type 0
Answer = Result ResultSet × Tables

abbrev add_user : User → Tables → Answer
add_user u t =
    if is_empty (keep_if (λ v. text_eq v.login u.login) t.users)
    then (ok (record { rows = []; rows_affected = 1 }), record t { users = u ∷ t.users })
    else (ok (rows []), t)

abbrev add_route : Text → Text → Tables → Answer
add_route owner points t =
    let r : Route = record {
      id = to_string (pos t.next_route);
      owner_login = owner;
      points = points;
    } in
    (
      ok (rows (route_row r ∷ [])),
      record t { routes = r ∷ t.routes; next_route = t.next_route + 1 },
    )

abbrev pub first_row : List User → List Row
first_row [] = []
first_row (u ∷ users) = user_row u ∷ []

abbrev users_where : (User → Bool) → Tables → Answer
users_where p t = (ok (rows (map user_row (keep_if p t.users))), t)

abbrev routes_where : (Route → Bool) → Tables → Answer
routes_where p t = (ok (rows (map route_row (keep_if p t.routes))), t)

unfoldable pub answer : String → List Text → Tables → Answer
unfolding insert_user select_credentials select_user insert_route select_routes_by_owner
    select_route to_string text_eq
answer text (a ∷ []) t =
    if text == (select_user []).text
    then (ok (rows (first_row (keep_if (λ u. text_eq u.login a) t.users))), t)
    else if text == (select_routes_by_owner []).text
    then routes_where (λ r. text_eq r.owner_login a) t
    else if text == (select_route []).text
    then routes_where (λ r. text_eq r.id a) t
    else (err failure, t)
answer text (a ∷ b ∷ []) t =
    if text == (select_credentials [] []).text
    then users_where (λ u. text_eq u.login a && text_eq u.password b) t
    else if text == "INSERT INTO routes (owner_login, points) VALUES ($1, $2) RETURNING id"
    then add_route a b t
    else (err failure, t)
answer text (a ∷ b ∷ c ∷ d ∷ []) t =
    add_user (record { login = a; first_name = b; last_name = c; password = d }) t
answer text params t = (err failure, t)

abbrev pub database : Postgres
database = record { State = Tables; execute = λ q. answer q.text q.params }
