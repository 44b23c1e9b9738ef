-- ===== src/Examples/Memory.antt =====
-- The theorems on the storage in memory, at a user, a search and an interleaving.
use sd_hw.Prelude.{refl, [], codes, text_eq}
use sd_hw.Models.{User}
use sd_hw.App.Raises.{Listed}
use sd_hw.MemoryStorage.{
  Memory, lookup, assign, check_password, add_user, store_token, search_users_by_name,
}
use sd_hw.MemoryStorage.Maps.{Adds, add_user-Adds}
use sd_hw.MemoryStorage.Interleavings.{
  System, no_data, checks, stores, adds_user, Reaches, here, later, Owned, no_data-Owned,
}
use sd_hw.MemoryStorage.Search.{IsFound, search_users_by_name-IsFound}

abbrev alice : User
alice = record {
  login = codes "alice";
  first_name = codes "Alice";
  last_name = codes "Smith";
  password = codes "secret99";
}

abbrev bob : User
bob = record alice { login = codes "bob" }

abbrev with_alice : Memory
with_alice = (add_user alice no_data.memory).1

add_user-Adds_example : Adds bob with_alice (add_user bob with_alice)
add_user-Adds_example = add_user-Adds bob with_alice

search_users_by_name-IsFound_example :
    (Listed alice (search_users_by_name (codes "lic") with_alice)
      → IsFound (codes "lic") with_alice alice)
    × (IsFound (codes "lic") with_alice alice
        → Listed alice (search_users_by_name (codes "lic") with_alice))
search_users_by_name-IsFound_example = search_users_by_name-IsFound (codes "lic") with_alice alice

-- Alice's password is checked, Bob is added, and then Alice's token is stored.
abbrev interleaved : System
interleaved = record {
  memory = store_token (codes "t") (codes "alice") (add_user bob with_alice).1;
  checked = [];
}

interleaved-Reaches : Reaches no_data interleaved
unfolding add_user lookup assign check_password text_eq
interleaved-Reaches =
    later _ _
      (later _ _
        (later _ _ (later _ _ here (adds_user alice))
          (checks (codes "alice") (codes "secret99") refl))
        (adds_user bob))
      (stores (codes "t") (codes "alice") [] [] refl)

no_data-Owned_example : Owned interleaved
no_data-Owned_example = no_data-Owned interleaved interleaved-Reaches
