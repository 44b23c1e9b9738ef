-- ===== src/Examples/Concurrent.antt =====
-- Two calls of JoinTrip at once on the fixture: both look before one of them adds the login.
use sd_hw.Prelude.{refl, false, [], ◌∷◌, Text, codes}
use sd_hw.MongoStorage.{joined}
use sd_hw.MongoStorage.Documents.{id_filter, participant_filter, add_participant}
use sd_hw.MongoStorage.Joins.{holds, with_login}
use sd_hw.MongoStorage.Concurrent.{
  change, after_look, after_change, System, begin, misses, changes, Reaches, here, later,
}
use sd_hw.MongoStorage.Concurrent.Once.{Once, begin-Once}
use sd_hw.Examples.Documents.{find, update}
use sd_hw.Examples.Trips.{trips, with_trip}

abbrev alice : Text
alice = codes "alice"

abbrev both_looked : System trips
both_looked = record {
  store = with_trip.mongo;
  looked = (97, alice) ∷ (97, alice) ∷ [];
  answers = [];
}

abbrev one_added : System trips
one_added = record {
  store = (change trips 97 alice with_trip.mongo).1;
  looked = (97, alice) ∷ [];
  answers = (97, (alice, joined)) ∷ [];
}

both_look : Reaches trips (begin trips with_trip.mongo) both_looked
unfolding trips find id_filter participant_filter after_look holds
both_look = later _ _ (later _ _ here (misses 97 alice refl)) (misses 97 alice refl)

one_adds : Reaches trips (begin trips with_trip.mongo) one_added
unfolding trips find update id_filter participant_filter add_participant after_look after_change
    holds with_login
one_adds = later _ _ both_look (changes 97 alice [] ((97, alice) ∷ []) refl)

begin-Once_example : Once trips 97 alice false one_added
unfolding trips holds
begin-Once_example = begin-Once trips 97 alice [] with_trip.mongo one_added refl one_adds
