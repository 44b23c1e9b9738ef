-- ===== src/Handlers/Profiles/Lookup.antt =====
-- What the SELECT of a profile finds in the table.
use sd_hw.Prelude.{◌≡◌, refl, ◌∙◌, ◌⊎◌, inl, inr, Option, none, some, Text}
use sd_hw.Models.{User}
use sd_hw.Services.{Services, Row, ResultSet}
use sd_hw.Services.Results.{Exn, Result, ok, err, Result-cases}
use sd_hw.App.{World}
use sd_hw.PgStorage.{get_user_by_login}
use sd_hw.PgStorage.Queries.{select_user}
use sd_hw.PgStorage.Rows.{read_user, first_row}
use sd_hw.Handlers.Profiles.{Stores, Shows, IsRowOf}

read_user_row : (user : User) (row : Row) → IsRowOf user row → read_user row ≡ ok user
unfolding read_user
read_user_row user row r = rw (r.login, r.first_name, r.last_name, r.password) refl

module _ {sv : Services} (st : Stores sv) where
  -- The table has no row for the login, or the SELECT for it fails.
  abbrev pub Missing : sv.pg.State → Text → Type 0
  Missing pg login =
      (st.table.user_at pg login ≡ none)
      ⊎ ((e : Exn) × ((sv.pg.execute (select_user login) pg).0 ≡ err e))

  pub record Looked (login : Text) (w : World sv) (r : Result (Option User) × World sv)
      : Type 0 where
    pub found : Option User
    pub result : r.0 ≡ ok found
    pub pg : r.1.pg ≡ (sv.pg.execute (select_user login) w.pg).1
    pub redis : r.1.redis ≡ w.redis
    pub response : r.1.response ≡ w.response
    pub real : (user : User) → found ≡ some user → st.table.user_at w.pg login ≡ some user
    pub absent : found ≡ none → Missing w.pg login

  pub get_user_by_login-Looked :
      (login : Text) (w : World sv) → Looked login w (get_user_by_login login w)
  unfolding get_user_by_login first_row
  get_user_by_login-Looked login w =
      elim (Result-cases (sv.pg.execute (select_user login) w.pg).0) [
        | inl (rs, e) ↦
            shown rs e (st.table.user_at w.pg login) refl (st.table.select_shows login w.pg rs e)
        | inr (x, e) ↦ rw e (record {
          found = none;
          result = refl;
          pg = refl;
          redis = refl;
          response = refl;
          real = λ user p. cc;
          absent = λ p. inr (x, e);
        })
      ]
    where
      shown :
          (rs : ResultSet)
          → (sv.pg.execute (select_user login) w.pg).0 ≡ ok rs
          → (o : Option User) → st.table.user_at w.pg login ≡ o
          → Shows o rs.rows
          → Looked login w (get_user_by_login login w)
      shown rs e none at rows =
          rw (e, rows)
            (record {
              found = none;
              result = refl;
              pg = refl;
              redis = refl;
              response = refl;
              real = λ user p. cc;
              absent = λ p. inl at;
            })
      shown rs e (some user) at (row, rows, is) =
          rw (e, rows, read_user_row user row is)
            (record {
              found = some user;
              result = refl;
              pg = refl;
              redis = refl;
              response = refl;
              real = λ u p. at ∙ p;
              absent = λ p. cc;
            })
