-- ===== src/Examples/Profiles.antt =====
-- The users and the cache of the fixture, and the theorem on profiles at some requests.
use sd_hw.Prelude.{
  ◌+◌, ◌≡◌, refl, sym, subst, ◌∙◌, ap, inl, inr, true, Option, none, some, List, [], ◌∷◌, Text,
  codes, text_eq, text_eq→eq, keep_if, is_empty, Bool-cases,
}
use sd_hw.Models.{User}
use sd_hw.Prelude.Int.{pos, eqb_ℤ}
use sd_hw.RateLimiter.{rate_limit_script, rate_limit_key}
use sd_hw.Services.{Query}
use sd_hw.PgStorage.Queries.{
  insert_user, select_credentials, select_user, select_users_like, insert_route,
  select_routes_by_owner, select_route,
}
use sd_hw.Handlers.Registered.{Endpoint, create_user, get_user}
use sd_hw.Server.{serve}
use sd_hw.Handlers.Users.{handle_get_user}
use sd_hw.Handlers.Histories.{
  Statement, to_insert_user, to_select_credentials, to_select_user, to_select_users_like,
  to_select_routes_by_owner, to_select_route,
}
use sd_hw.Handlers.Profiles.{Shows, UserTable, TextCache, Stores}
use sd_hw.Handlers.Profiles.Serves.{Serves}
use sd_hw.Handlers.Profiles.Histories.{handle_get_user-Serves}
use sd_hw.Http.{Request}
use sd_hw.Examples.Database.{Tables, database, user_row, first_row, answer}
use sd_hw.Examples.Keys.{keys}
use sd_hw.Examples.Fixture.{fixture, start, request}

abbrev first : List User → Option User
first [] = none
first (u ∷ users) = some u

abbrev of_login : Text → List User → List User
of_login login users = keep_if (λ u. text_eq u.login login) users

first-Shows : (users : List User) → Shows (first users) (first_row users)
first-Shows [] = refl
first-Shows (u ∷ users) = (
  user_row u,
  refl,
  record { login = refl; first_name = refl; last_name = refl; password = refl },
)

some_first : (users : List User) (user : User) → first users ≡ some user → is_empty users ≡ true → ⊥
some_first [] user e h = cc
some_first (u ∷ users) user e h = cc

-- A user that is added stands before the others, and has a login that none of them has.
added_kept :
    (new : User) (login : Text) (user : User) (users : List User)
    → is_empty (of_login new.login users) ≡ true
    → first (of_login login users) ≡ some user
    → first (of_login login (new ∷ users)) ≡ some user
added_kept new login user users free e = elim (Bool-cases (text_eq new.login login)) [
  | inl hit ↦ absurd (
      some_first (of_login login users) user e
        (ap (λ l. is_empty (of_login l users)) (sym (text_eq→eq new.login login hit)) ∙ free))
  | inr miss ↦ rw miss e
]

table : UserTable database
unfolding answer insert_user select_credentials select_user select_users_like insert_route
    select_routes_by_owner select_route
table = record {
  user_at = λ s login. first (of_login login s.users);
  select_shows = λ login s found e.
      let shown : first_row (of_login login s.users) ≡ found.rows = cc in
      subst (Shows (first (of_login login s.users))) shown (first-Shows (of_login login s.users));
  row_kept = kept;
  row_kept_by_route = λ route login user s e. e;
}
  where
    kept :
        (q : Query) (login : Text) (user : User) (s : Tables)
        → Statement q
        → first (of_login login s.users) ≡ some user
        → first (of_login login (answer q.text q.params s).1.users) ≡ some user
    kept q login user s (to_insert_user new) e =
        elim (Bool-cases (is_empty (of_login new.login s.users))) [
          | inl free ↦ rw free (added_kept new login user s.users free e)
          | inr taken ↦ rw taken e
        ]
    kept q login user s (to_select_credentials a b) e = e
    kept q login user s (to_select_user a) e = e
    kept q login user s (to_select_users_like a) e = e
    kept q login user s (to_select_routes_by_owner a) e = e
    kept q login user s (to_select_route a) e = e

unfoldable pub values : TextCache keys
unfolding rate_limit_script
values = record {
  cached = λ s. s.texts;
  get_hit = λ k v s e. cc;
  get_keeps = λ k j v s e. e;
  set_after = λ k v j u n s e. elim (Bool-cases (text_eq j k)) [
    | inl own ↦ inl (text_eq→eq j k own, cc)
    | inr other ↦ inr (rw other at e)
  ];
  del_keeps =
      λ k j v s e. elim (Bool-cases (text_eq j k)) [ inl own ↦ cc | inr other ↦ rw other at e ];
  eval_keeps = λ client limit window j v s other e.
      elim (Bool-cases (eqb_ℤ (pos (s.counter (rate_limit_key client) + 1)) (pos 1))) [
        | inl fresh ↦ rw fresh at e
        | inr old ↦ rw old at e
      ];
}

stores : Stores fixture
stores = record { table = table; cache = values }

abbrev requests : List (Endpoint × Request)
requests = (create_user, request) ∷ (get_user, request) ∷ []

handle_get_user-Serves_example :
    Serves stores
      (codes "alice")
      (serve requests start)
      (handle_get_user request (serve requests start))
unfolding stores values
handle_get_user-Serves_example =
    handle_get_user-Serves stores requests start request (λ login. refl) refl
