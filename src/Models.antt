-- ===== src/Models.antt =====
-- src/models.hpp
use sd_hw.Prelude.{ℕ, List, Text}

pub record User : Type 0 where
  pub login : Text
  pub first_name : Text
  pub last_name : Text
  pub password : Text

pub record Route : Type 0 where
  pub id : Text
  pub owner_login : Text
  pub points : Text

pub record Trip : Type 0 where
  pub id : Text
  pub route_id : Text
  pub participants_logins : List Text

-- A `double` is carried as its 64 bits: the program stores distances and does not compute with them.
pub record MongoRouteSnapshot : Type 0 where
  pub route_id : Text
  pub owner_login : Text
  pub raw_points : Text
  pub points : List Text
  pub distance_km : ℕ

pub record MongoTrip : Type 0 where
  pub id : Text
  pub owner_login : Text
  pub route_id : Text
  pub route : MongoRouteSnapshot
  pub status : Text
  pub participants_logins : List Text
