-- ===== src/Http.antt =====
-- The part of the HTTP server that handlers see: the request, the response that they fill in, and
-- std::to_string for the headers.
use sd_hw.Prelude.{
  ℕ, zero, suc, ◌+◌, ◌/◌, ◌%◌, Bool, Option, List, [], ◌∷◌, Text, String, ltb, if◌then◌else◌,
}
use sd_hw.Prelude.Int.{ℤ, pos, negsuc}

pub record Request : Type 0 where
  pub remote_address : Text
  pub body : Text
  pub has_arg : String → Bool
  pub get_arg : String → Text
  pub get_header : String → Text

pub record Response : Type 0 where
  pub status : ℕ
  pub headers : List (String × Text)
  pub user_login : Option Text

-- The decimal digits, with as many rounds as the number: each round divides it by ten.
unfoldable pub digits : ℕ → ℕ → Text → Text
digits zero n out = out
digits (suc fuel) n out =
    let more : Text = digits fuel (n / 10) ((b'0' + n % 10) ∷ out) in
    if ltb n 10 then (b'0' + n) ∷ out else more

-- std::to_string
unfoldable pub to_string : ℤ → Text
unfolding digits
to_string (pos n) = digits (suc n) n []
to_string (negsuc n) = b'-' ∷ digits (suc (suc n)) (suc n) []
