-- ===== src/PgStorage/Rows.antt =====
-- How src/storage_pg.cpp reads the rows of a result.
use sd_hw.Prelude.{List, [], ◌∷◌, ◌++◌, Text}
use sd_hw.Models.{User, Route}
use sd_hw.Services.{Row}
use sd_hw.Services.Results.{Result, ok, err, failure, ◌>>=◌}

-- `result[0]` throws on an empty result.
unfoldable pub first_row : List Row → Result Row
first_row [] = err failure
first_row (row ∷ rows) = ok row

unfoldable pub read_user : Row → Result User
read_user row = do
  login ← row.column "login"
  first_name ← row.column "first_name"
  last_name ← row.column "last_name"
  password ← row.column "password_hash"
  ok (record { login = login; first_name = first_name; last_name = last_name; password = password })

unfoldable pub read_route : Row → Result Route
read_route row = do
  id ← row.column "id"
  owner_login ← row.column "owner_login"
  points ← row.column "points"
  ok (record { id = id; owner_login = owner_login; points = points })

unfoldable pub read_login : Row → Result Text
read_login row = row.column "login"

-- `for (const auto& row : result) out.push_back(…)`
unfoldable pub read_rows {ℓ} : {A : Type ℓ} → (Row → Result A) → List Row → List A → Result (List A)
read_rows read [] out = ok out
read_rows read (row ∷ rows) out = do a ← read row; read_rows read rows (out ++ a ∷ [])
