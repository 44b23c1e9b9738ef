-- ===== src/Examples/Json.antt =====
-- A JSON library that parses what it prints: texts behind their lengths, names by their places in a
-- table, a mark before each value and each member.
use package.text.Mathlib.Text.{◌==◌ as str_eq}
use package.text.Mathlib.TextEquality.{eq_iff}
use sd_hw.Prelude.{
  ℕ, zero, suc, ◌+◌, ◌≤◌, ◌≡◌, refl, ap, true, Option, none, some, List, [], ◌∷◌, ◌++◌,
  append_assoc, append-nil, subst, Text, String, arith, length, length-append, take, drop,
  take-length_append, drop-length_append, if◌then◌else◌,
}
use sd_hw.Services.{JsonCodec}
use sd_hw.Services.Values.{Json, string, number, array, object, Members, no_members, member}
use sd_hw.Events.Delivery.{
  Printable, PrintableMembers, prints_string, prints_number, prints_object, prints_none,
  prints_member, PrintsAndParses, EventName, event_id_name, event_type_name, schema_version_name,
  occurred_at_name, producer_name_name, correlation_id_name, payload_name, login_name,
  first_name_name, last_name_name, route_id_name, owner_login_name, points_name, trip_id_name,
  status_name,
}

abbrev table : List String
table =
    "event_id" ∷ "event_type" ∷ "schema_version" ∷ "occurred_at" ∷ "producer" ∷ "correlation_id"
    ∷ "payload" ∷ "login" ∷ "first_name" ∷ "last_name" ∷ "route_id" ∷ "owner_login" ∷ "points"
    ∷ "trip_id" ∷ "status" ∷ []

abbrev place : String → List String → ℕ
place name [] = 0
place name (n ∷ names) = if str_eq n name then 0 else 1 + place name names

abbrev at_place : ℕ → List String → String
at_place n [] = ""
at_place zero (n ∷ names) = n
at_place (suc k) (n ∷ names) = at_place k names

unfoldable mutual
  pub print : Json → Text
  print (string s) = 0 ∷ length s ∷ s
  print (number n) = 1 ∷ n ∷ []
  print (object m) = 2 ∷ print_members m
  print (array items) = 3 ∷ []

  pub print_members : Members → Text
  print_members no_members = 0 ∷ []
  print_members (member name v rest) = 1 ∷ place name table ∷ (print v ++ print_members rest)

abbrev and_then : {A B : Type 0} → Option A → (A → Option B) → Option B
and_then none f = none
and_then (some a) f = f a

unfoldable mutual
  -- A value and what stands behind it.
  pub parse : ℕ → Text → Option (Json × Text)
  parse (suc fuel) (zero ∷ n ∷ s) = some (string (take n s), drop n s)
  parse (suc fuel) (suc zero ∷ n ∷ s) = some (number n, s)
  parse (suc fuel) (suc (suc zero) ∷ s) =
      and_then (parse_members fuel s) (λ r. some (object r.0, r.1))
  parse _ _ = none

  pub parse_members : ℕ → Text → Option (Members × Text)
  parse_members (suc fuel) (zero ∷ s) = some (no_members, s)
  parse_members (suc fuel) (suc zero ∷ n ∷ s) = and_then (parse fuel s) (λ v.
      and_then (parse_members fuel v.1)
        (λ rest. some (member (at_place n table) v.0 rest.0, rest.1)))
  parse_members _ _ = none

abbrev Any : Text → Type 0
Any s = Unit {0}

abbrev InTable : String → Type 0
InTable name = at_place (place name table) table ≡ name

mutual
  unfolding print print_members parse parse_members

  pub parse-print :
      (v : Json) (fuel : ℕ) (s : Text)
      → Printable Any InTable v
      → length (print v) ≤ fuel
      → parse fuel (print v ++ s) ≡ some (v, s)
  parse-print (string t) zero s p h = absurd (omega arith)
  parse-print (number n) zero s p h = absurd (omega arith)
  parse-print (object m) zero s p h = absurd (omega arith)
  parse-print (array items) fuel s p h = elim p [ ]
  parse-print (string t) (suc fuel) s (prints_string _) h =
      rw (take-length_append t s, drop-length_append t s) refl
  parse-print (number n) (suc fuel) s prints_number h = refl
  parse-print (object m) (suc fuel) s (prints_object p) h =
      rw (parse_members-print_members m fuel s p (omega arith)) refl

  parse_members-print_members :
      (m : Members) (fuel : ℕ) (s : Text)
      → PrintableMembers Any InTable m
      → length (print_members m) ≤ fuel
      → parse_members fuel (print_members m ++ s) ≡ some (m, s)
  parse_members-print_members no_members zero s p h = absurd (omega arith)
  parse_members-print_members (member name v rest) zero s p h = absurd (omega arith)
  parse_members-print_members no_members (suc fuel) s prints_none h = refl
  parse_members-print_members (member name v rest) (suc fuel) s (prints_member known pv pr) h =
      let sizes = length-append (print v) (print_members rest) in
      rw
        (
          append_assoc,
          parse-print v fuel (print_members rest ++ s) pv (omega arith),
          parse_members-print_members rest fuel s pr (omega arith),
          known,
        )
        refl

abbrev value_behind : Option (Json × Text) → Option Json
value_behind none = none
value_behind (some r) = some r.0

abbrev find_member : Members → String → Option Json
find_member no_members name = none
find_member (member key v rest) name = if str_eq key name then some v else find_member rest name

abbrev member_in : Json → String → Option Json
member_in (object m) name = find_member m name
member_in _ name = none

abbrev as_text : Option Json → Option Text
as_text (some (string s)) = some s
as_text _ = none

abbrev pub table_codec : JsonCodec
table_codec = record {
  from_string = λ message. value_behind (parse (length message) message);
  member = member_in;
  string_field = λ v name. as_text (member_in v name);
  to_string = print;
}

abbrev str_eq_refl : (s : String) → str_eq s s ≡ true
str_eq_refl s = (eq_iff s s).1 refl

pub in_table : (name : String) → EventName name → InTable name
in_table _ event_id_name = refl
in_table _ event_type_name = refl
in_table _ schema_version_name = refl
in_table _ occurred_at_name = refl
in_table _ producer_name_name = refl
in_table _ correlation_id_name = refl
in_table _ payload_name = refl
in_table _ login_name = refl
in_table _ first_name_name = refl
in_table _ last_name_name = refl
in_table _ route_id_name = refl
in_table _ owner_login_name = refl
in_table _ points_name = refl
in_table _ trip_id_name = refl
in_table _ status_name = refl

unfoldable pub prints_and_parses : PrintsAndParses table_codec
prints_and_parses = record {
  valid = Any;
  valid_name = InTable;
  names_valid = in_table;
  ascii_valid = λ s a. tt;
  parse_again = λ v p.
      let again = parse-print v (length (print v)) [] p (omega arith) in
      ap value_behind
        (subst (λ t. parse (length (print v)) t ≡ some (v, [])) (append-nil (print v)) again);
  text_here = λ name s rest. rw (str_eq_refl name) refl;
  text_later = λ key name v rest other. rw other refl;
  member_here = λ name v rest. rw (str_eq_refl name) refl;
  member_later = λ key name v rest other. rw other refl;
}
