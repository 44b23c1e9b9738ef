-- ===== src/MongoStorage/Tokens.antt =====
-- The life of a token: what the storage of tokens relies on, and how long a login is found.
use sd_hw.Prelude.{
  ℕ, ◌+◌, ◌<◌, ◌≤◌, ◌≡◌, refl, inl, inr, Option, none, some, arith, Text, ltb, if◌then◌else◌,
  Bool-cases,
}
use sd_hw.Services.{Services}
use sd_hw.Services.Values.{Doc}
use sd_hw.Services.Results.{ok}
use sd_hw.App.{World}
use sd_hw.MongoStorage.{insert_auth_token, get_login_by_token}
use sd_hw.MongoStorage.Documents.{auth_token, token_filter}

-- The documented behaviour of the collection `auth_tokens`, told through the login and the expiry
-- that it holds for a token: one document for an `_id`, and `$gt` as a strict order of dates.
pub record TokenStore (sv : Services) : Type 0 where
  pub auth : sv.mongo.Collection
  pub token_of : sv.mongo.State → Text → Option (Text × ℕ)
  pub get_auth : (s : sv.mongo.State) → sv.mongo.get_collection "auth_tokens" s ≡ (ok auth, s)
  pub insert_reply :
      (token login : Text) (created until : ℕ) (s : sv.mongo.State)
      → token_of s token ≡ none
      → (sv.mongo.insert_one auth (auth_token token login created until) s).0 ≡ ok tt
  pub insert_token :
      (token login : Text) (created until : ℕ) (s : sv.mongo.State)
      → token_of s token ≡ none
      → token_of (sv.mongo.insert_one auth (auth_token token login created until) s).1 token
        ≡ some (login, until)
  pub find_missing :
      (token : Text) (now : ℕ) (s : sv.mongo.State)
      → token_of s token ≡ none
      → sv.mongo.find_one auth (token_filter token now) s ≡ (ok none, s)
  pub find_expired :
      (token login : Text) (until now : ℕ) (s : sv.mongo.State)
      → token_of s token ≡ some (login, until)
      → until ≤ now
      → sv.mongo.find_one auth (token_filter token now) s ≡ (ok none, s)
  pub find_live :
      (token login : Text) (until now : ℕ) (s : sv.mongo.State)
      → token_of s token ≡ some (login, until)
      → now < until
      → (doc : Doc) × (sv.mongo.find_one auth (token_filter token now) s ≡ (ok (some doc), s))
        × (sv.bson.text_field doc "login" ≡ ok login)

-- The clock of a world, and the world after it was read.
abbrev pub time : {sv : Services} → World sv → ℕ
time {sv} w = (sv.runtime.now w.runtime).0

abbrev pub clock_read : {sv : Services} → World sv → World sv
clock_read {sv} w = record w { runtime = (sv.runtime.now w.runtime).1 }

-- The login that a stored entry gives at a time.
abbrev pub login_at : ℕ → Option (Text × ℕ) → Option Text
login_at now none = none
login_at now (some (login, until)) = if ltb now until then some login else none

module _ {sv : Services} (t : TokenStore sv) where
  -- The lookup gives the login of an entry that has not expired, and changes no service but the clock.
  pub get_login_by_token_lem :
      (token : Text) (w : World sv)
      → get_login_by_token token w
        ≡ (ok (login_at (time w) (t.token_of w.mongo token)), clock_read w)
  unfolding get_login_by_token
  get_login_by_token_lem token w = stored (t.token_of w.mongo token) refl
    where
      stored :
          (o : Option (Text × ℕ))
          → t.token_of w.mongo token ≡ o
          → get_login_by_token token w
            ≡ (ok (login_at (time w) (t.token_of w.mongo token)), clock_read w)
      stored none e = rw (t.get_auth w.mongo, t.find_missing token (time w) w.mongo e, e)
      stored (some (login, until)) e = elim (Bool-cases (ltb (time w) until)) [
        | inl live ↦
            let (doc, found, read) =
              t.find_live token login until (time w) w.mongo e (ground arith) in
            rw (t.get_auth w.mongo, found, read, e, live)
        | inr past ↦ rw (
          t.get_auth w.mongo,
          t.find_expired token login until (time w) w.mongo e (ground arith),
          e,
          past,
        )
      ]

  pub insert_auth_token_lem :
      (token login : Text) (w : World sv)
      → t.token_of w.mongo token ≡ none
      → t.token_of (insert_auth_token token login w).1.mongo token ≡ some (login, time w + 86400)
  unfolding insert_auth_token
  insert_auth_token_lem token login w fresh =
      rw (t.get_auth w.mongo, t.insert_reply token login (time w) (time w + 86400) w.mongo fresh)
        (t.insert_token token login (time w) (time w + 86400) w.mongo fresh)

-- With a MongoDB that answers (the laws of TokenStore), a token that was not stored, once inserted, is
-- found with its login for 24 hours from then, and no longer, as long as the database is not changed.
pub get_login_by_token-insert_auth_token :
    {sv : Services} (t : TokenStore sv) (token login : Text) (w v : World sv)
    → t.token_of w.mongo token ≡ none
    → v.mongo ≡ (insert_auth_token token login w).1.mongo
    → (get_login_by_token token v).0
      ≡ ok (if ltb (time v) (time w + 86400) then some login else none)
get_login_by_token-insert_auth_token t token login w v fresh same =
    rw (get_login_by_token_lem t token v, same, insert_auth_token_lem t token login w fresh)
