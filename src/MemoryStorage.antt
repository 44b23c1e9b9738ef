-- ===== src/MemoryStorage.antt =====
-- src/storage.cpp: `StorageComponent`, the storage in memory. Each block under a lock is one function
-- on the state; the identifiers that the generator makes are arguments, and the methods that call it
-- are put together at the end. The order of the entries stands for the order in which the program
-- goes over an unordered_map.
pub mod Maps
pub mod Interleavings
pub mod Search
use sd_hw.Prelude.{
  Bool, true, false, not, ◌||◌, Option, none, some, List, [], ◌∷◌, ◌++◌, Text, text_eq,
  if◌then◌else◌, maybe,
}
use sd_hw.Models.{User, Route, Trip}
use sd_hw.RoutePoints.{find}

-- std::unordered_map<std::string, A>
abbrev pub Map : Type 0 → Type 0
Map A = List (Text × A)

module _ {A : Type 0} where
  -- map.find(key); `none` is end()
  unfoldable pub lookup : Text → Map A → Option A
  lookup key [] = none
  lookup key ((k, a) ∷ rest) = if text_eq k key then some a else lookup key rest

  -- map[key] = value
  unfoldable pub assign : Text → A → Map A → Map A
  assign key value [] = (key, value) ∷ []
  assign key value ((k, a) ∷ rest) =
      if text_eq k key then (k, value) ∷ rest else (k, a) ∷ assign key value rest

-- StorageComponent
pub record Memory : Type 0 where
  pub users : Map User
  pub tokens : Map Text
  pub routes : Map Route
  pub trips : Map Trip

-- The first block of `LoginUser`: true where it goes on.
unfoldable pub check_password : Text → Text → Memory → Bool
check_password login password m =
    maybe (lookup login m.users) false (λ user. text_eq user.password password)

-- The second block of `LoginUser`.
unfoldable pub store_token : Text → Text → Memory → Memory
store_token token login m = record m { tokens = assign token login m.tokens }

unfoldable pub get_login_by_token : Text → Memory → Option Text
get_login_by_token token m = lookup token m.tokens

unfoldable pub add_user : User → Memory → Bool × Memory
add_user user m =
    maybe (lookup user.login m.users) (true, record m { users = assign user.login user m.users })
      (λ there. (false, m))

unfoldable pub get_user_by_login : Text → Memory → Option User
get_user_by_login login m = lookup login m.users

-- std::string::find(mask) != npos
abbrev pub contains : Text → Text → Bool
contains mask s = maybe (find s mask 0) false (λ at. true)

abbrev pub matches : Text → User → Bool
matches mask user = contains mask user.first_name || contains mask user.last_name

-- The loops of `SearchUsersByName` and `GetRoutesByUser`.
unfoldable pub push_matching : {A : Type 0} → (A → Bool) → Map A → List A → List A
push_matching test [] result = result
push_matching test ((key, a) ∷ rest) result =
    push_matching test rest (if test a then result ++ a ∷ [] else result)

unfoldable pub search_users_by_name : Text → Memory → List User
search_users_by_name mask m = push_matching (matches mask) m.users []

-- `AddRoute` and `AddTrip` behind the identifier.
unfoldable pub add_route : Text → Route → Memory → Memory
add_route id route m = record m { routes = assign id (record route { id = id }) m.routes }

unfoldable pub get_routes_by_user : Text → Memory → List Route
get_routes_by_user login m = push_matching (λ route. text_eq route.owner_login login) m.routes []

unfoldable pub add_trip : Text → Trip → Memory → Memory
add_trip id trip m = record m { trips = assign id (record trip { id = id }) m.trips }

-- std::find(begin, end, login) != end
unfoldable pub is_participant : Text → List Text → Bool
is_participant login [] = false
is_participant login (p ∷ participants) =
    if text_eq p login then true else is_participant login participants

unfoldable pub join : Text → Trip → Trip
join login trip =
    if not (is_participant login trip.participants_logins)
    then record trip { participants_logins = trip.participants_logins ++ login ∷ [] }
    else trip

unfoldable pub add_user_to_trip : Text → Text → Memory → Bool × Memory
add_user_to_trip trip_id login m =
    maybe (lookup trip_id m.trips) (false, m)
      (λ trip. (true, record m { trips = assign trip_id (join login trip) m.trips }))

unfoldable pub get_trip : Text → Memory → Option Trip
get_trip trip_id m = lookup trip_id m.trips

-- The methods with the generator of identifiers, whose state they pass on.
module _ {S : Type 0} (generate_uuid : S → Text × S) where
  unfoldable pub login_user : Text → Text → S × Memory → Option Text × (S × Memory)
  login_user login password (s, m) =
      let (token, s') = generate_uuid s in
      if check_password login password m
      then (some token, (s', store_token token login m))
      else (none, (s, m))

  unfoldable pub add_new_route : Route → S × Memory → Text × (S × Memory)
  add_new_route route (s, m) = let (id, s') = generate_uuid s in (id, (s', add_route id route m))

  unfoldable pub add_new_trip : Trip → S × Memory → Text × (S × Memory)
  add_new_trip trip (s, m) = let (id, s') = generate_uuid s in (id, (s', add_trip id trip m))
