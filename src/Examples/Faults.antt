-- ===== src/Examples/Faults.antt =====
-- Answers of the handlers while a database fails, and of those that name what is due.
use sd_hw.Prelude.{refl, some, codes, text_eq}
use sd_hw.Services.{Services, Postgres}
use sd_hw.Services.Results.{err, failure}
use sd_hw.App.{World}
use sd_hw.App.Blind.{Alike}
use sd_hw.MongoStorage.{join_trip}
use sd_hw.Handlers.Users.{handle_login, handle_create_user}
use sd_hw.Handlers.Trips.{handle_add_user_to_trip}
use sd_hw.Handlers.Logins.Alike.{handle_login-Alike}
use sd_hw.Handlers.Listings.Faults.{Hides, handle_get_routes-Hides}
use sd_hw.Handlers.Registrations.{Registers, handle_create_user-Registers}
use sd_hw.Handlers.Joins.Answers.{AsksJoin, Answers, due, handle_add_user_to_trip-Answers}
use sd_hw.Examples.Fixture.{fixture, start, request}
use sd_hw.Examples.Trips.{trips, join_request, with_trip}

handle_login-Alike_example : Alike {sv = fixture} (handle_login request)
handle_login-Alike_example = handle_login-Alike request

handle_create_user-Registers_example : Registers request start (handle_create_user request start)
handle_create_user-Registers_example = handle_create_user-Registers request start

-- A PostgreSQL that has lost its connections.
abbrev lost : Postgres
lost = record { State = Unit {0}; execute = λ q s. (err failure, s) }

abbrev without_pg : Services
without_pg = record fixture { pg = lost }

abbrev lost_start : World without_pg
lost_start = record {
  pg = tt;
  mongo = start.mongo;
  redis = start.redis;
  rabbit = start.rabbit;
  runtime = start.runtime;
  response = start.response;
}

handle_get_routes-Hides_example : Hides {sv = without_pg} request lost_start tt
unfolding text_eq
handle_get_routes-Hides_example =
    handle_get_routes-Hides request lost_start failure tt refl refl refl refl

named : AsksJoin fixture join_request (codes "a") (codes "a")
named = record { json = _; parsed = refl; id_read = refl; login_read = refl }

handle_add_user_to_trip-Answers_example :
    Answers {sv = fixture}
      (codes "a")
      (codes "a")
      (due trips (codes "a") with_trip (some 97))
      with_trip
      (join_trip {sv = fixture} (codes "a") (codes "a") with_trip).1
      (handle_add_user_to_trip join_request with_trip)
handle_add_user_to_trip-Answers_example =
    handle_add_user_to_trip-Answers trips join_request (codes "a") (codes "a") with_trip named
