-- ===== src/Events/Timestamps.antt =====
-- Reading a timestamp of the events back.
use sd_hw.Prelude.{
  ℕ, suc, ◌+◌, ◌*◌, ◌-◌, ◌/◌, ◌%◌, ◌<◌, ◌≤◌, ◌≡◌, refl, sym, ap, ◌∙◌, false, true, [], ◌∷◌, arith,
  Text, take, drop, length, ltb,
}
use sd_hw.Prelude.Int.{pos}
use sd_hw.Services.{Tm}
use sd_hw.Http.{digits, to_string}
use sd_hw.Events.Format.{two_digits, to_iso8601_utc}

-- The number that decimal digits stand for.
abbrev value : ℕ → Text → ℕ
value n [] = n
value n (c ∷ s) = value (n * 10 + (c - b'0')) s

abbrev pub number : Text → ℕ
number s = value 0 s

digits-more :
    (fuel n : ℕ) (out : Text)
    → 10 ≤ n
    → digits (suc fuel) n out ≡ digits fuel (n / 10) ((b'0' + n % 10) ∷ out)
unfolding digits
digits-more fuel n out h = let many : ltb n 10 ≡ false = ground arith in rw many refl

digits-last : (fuel n : ℕ) (out : Text) → n < 10 → digits (suc fuel) n out ≡ (b'0' + n) ∷ out
unfolding digits
digits-last fuel n out h = let one : ltb n 10 ≡ true = ground arith in rw one refl

four_digits :
    (fuel n : ℕ)
    → 1000 ≤ n
    → n < 10000
    → digits (suc (suc (suc (suc fuel)))) n []
      ≡ (b'0' + n / 10 / 10 / 10)
        ∷ (b'0' + n / 10 / 10 % 10)
        ∷ (b'0' + n / 10 % 10)
        ∷ (b'0' + n % 10)
        ∷ []
four_digits fuel n low high =
    digits-more (suc (suc (suc fuel))) n [] (omega arith)
    ∙ digits-more (suc (suc fuel)) (n / 10) _ (omega arith)
    ∙ digits-more (suc fuel) (n / 10 / 10) _ (omega arith)
    ∙ digits-last fuel (n / 10 / 10 / 10) _ (omega arith)

year_digits :
    (n : ℕ)
    → 1000 ≤ n
    → n < 10000
    → to_string (pos n)
      ≡ (b'0' + n / 10 / 10 / 10)
        ∷ (b'0' + n / 10 / 10 % 10)
        ∷ (b'0' + n / 10 % 10)
        ∷ (b'0' + n % 10)
        ∷ []
unfolding to_string
year_digits n low high =
    let enough : suc (suc (suc (n - 3))) ≡ n = omega arith in
    ap (λ f. digits (suc f) n []) (sym enough) ∙ four_digits (n - 3) n low high

number-four :
    (n : ℕ)
    → n < 10000
    → number (
        (b'0' + n / 10 / 10 / 10)
        ∷ (b'0' + n / 10 / 10 % 10)
        ∷ (b'0' + n / 10 % 10)
        ∷ (b'0' + n % 10)
        ∷ [])
      ≡ n
number-four n high = omega arith

number-two_digits : (n : ℕ) → n < 100 → number (two_digits n) ≡ n
number-two_digits n high = omega arith

-- A text of the form 2026-05-17T12:00:00Z, and the time that it stands for.
pub record Reads (tm : Tm) (t : Text) : Type 0 where
  pub size : length t ≡ 20
  pub year : number (take 4 t) ≡ tm.year
  pub month : number (take 2 (drop 5 t)) ≡ tm.month
  pub day : number (take 2 (drop 8 t)) ≡ tm.day
  pub hour : number (take 2 (drop 11 t)) ≡ tm.hour
  pub minute : number (take 2 (drop 14 t)) ≡ tm.minute
  pub second : number (take 2 (drop 17 t)) ≡ tm.second

-- For a year of four digits and other fields of two, the timestamp has twenty bytes, and its digits
-- read back as the fields, each at its fixed place.
pub to_iso8601_utc-Reads :
    (tm : Tm)
    → 1000 ≤ tm.year
    → tm.year < 10000
    → tm.month < 100
    → tm.day < 100
    → tm.hour < 100
    → tm.minute < 100
    → tm.second < 100
    → Reads tm (to_iso8601_utc tm)
unfolding to_iso8601_utc
to_iso8601_utc-Reads tm low high month day hour minute second =
    rw (year_digits tm.year low high) (record {
      size = refl;
      year = number-four tm.year high;
      month = number-two_digits tm.month month;
      day = number-two_digits tm.day day;
      hour = number-two_digits tm.hour hour;
      minute = number-two_digits tm.minute minute;
      second = number-two_digits tm.second second;
    })
