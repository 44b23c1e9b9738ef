-- ===== src/PgStorage.antt =====
-- src/storage_pg.cpp: `StoragePgComponent`. Every method catches what the driver or a column throws
-- and returns the value of its `catch` branch. The log lines are left out.
pub mod Queries
pub mod Rows
pub mod Keeps
use sd_hw.Prelude.{
  Bool, false, not, Option, none, some, List, [], Text, ◌==◌, is_empty, if◌then◌else◌,
}
use sd_hw.Models.{User, Route, Trip}
use sd_hw.Services.{Services, Postgres, Query, ResultSet}
use sd_hw.App.{App, pure, lift, try, ◌>>=◌, call_pg}
use Queries.{
  insert_user, select_credentials, select_user, select_users_like, insert_route,
  select_routes_by_owner, select_route, insert_trip, insert_participant, select_trip,
  select_participants,
}
use Rows.{first_row, read_user, read_route, read_login, read_rows}

module _ {sv : Services} where
  abbrev execute : Query → App sv ResultSet
  execute q = call_pg sv (sv.pg.execute q)

  -- The body of `if (result.IsEmpty()) return nullopt; …` with the reader of `result[0]`.
  abbrev first_or_none : {A : Type 0} → ResultSet → App sv A → App sv (Option A)
  first_or_none result read =
      if is_empty result.rows then pure none else (do a ← read; pure (some a))

  unfoldable pub add_user : User → App sv Bool
  add_user user =
      try (do result ← execute (insert_user user); pure (result.rows_affected == 1))
        (λ e. pure false)

  unfoldable pub login_user : Text → Text → App sv Bool
  login_user login password =
      try
        (do result ← execute (select_credentials login password); pure (not (is_empty result.rows)))
        (λ e. pure false)

  unfoldable pub get_user_by_login : Text → App sv (Option User)
  get_user_by_login login =
      try
        (do
          result ← execute (select_user login)
          first_or_none result (do row ← lift (first_row result.rows); lift (read_user row)))
        (λ e. pure none)

  unfoldable pub search_users_by_name : Text → App sv (List User)
  search_users_by_name mask =
      try (do result ← execute (select_users_like mask); lift (read_rows read_user result.rows []))
        (λ e. pure [])

  unfoldable pub add_route : Route → App sv Text
  add_route route =
      try
        (do
          result ← execute (insert_route route)
          row ← lift (first_row result.rows)
          lift (row.column "id"))
        (λ e. pure [])

  unfoldable pub get_routes_by_user : Text → App sv (List Route)
  get_routes_by_user login =
      try
        (do
          result ← execute (select_routes_by_owner login)
          lift (read_rows read_route result.rows []))
        (λ e. pure [])

  unfoldable pub get_route_by_id : Text → App sv (Option Route)
  get_route_by_id route_id =
      try
        (do
          result ← execute (select_route route_id)
          first_or_none result (do row ← lift (first_row result.rows); lift (read_route row)))
        (λ e. pure none)

  unfoldable pub add_trip : Trip → App sv Text
  add_trip trip =
      try
        (do
          result ← execute (insert_trip trip)
          row ← lift (first_row result.rows)
          lift (row.column "id"))
        (λ e. pure [])

  unfoldable pub add_user_to_trip : Text → Text → App sv Bool
  add_user_to_trip trip_id login =
      try (do result ← execute (insert_participant trip_id login); pure (result.rows_affected == 1))
        (λ e. pure false)

  -- The two statements are not one transaction: the participants are read after the trip.
  unfoldable pub get_trip : Text → App sv (Option Trip)
  get_trip trip_id =
      try
        (do
          trip_result ← execute (select_trip trip_id)
          first_or_none trip_result (do
            row ← lift (first_row trip_result.rows)
            id ← lift (row.column "id")
            route_id ← lift (row.column "route_id")
            participants_result ← execute (select_participants trip_id)
            logins ← lift (read_rows read_login participants_result.rows [])
            pure (record { id = id; route_id = route_id; participants_logins = logins })))
        (λ e. pure none)
