-- ===== src/RoutePoints.antt =====
-- src/storage_mongo.cpp: `TrimCopy` and `SplitRoutePoints`, over bytes. The proofs are below.
pub mod Spec
pub mod Find
pub mod Loops
pub mod Collect
pub mod Ends
pub mod Trim
pub mod Pieces
pub mod Points
pub mod RoundTrip
use sd_hw.Prelude.{
  ℕ, zero, suc, ◌+◌, ◌-◌, Bool, not, ◌&&◌, ◌||◌, Option, none, some, List, [], ◌∷◌, ◌++◌, Text,
  codes, starts_with, leb, ◌==◌, if◌then◌else◌, length, take, drop, is_empty,
}
use mathlib.Core.Option
use mathlib.Core.List.{reverse}

-- std::isspace in the "C" locale
unfoldable pub is_space : ℕ → Bool
is_space c = c == b' ' || (leb 9 c && leb c 13)

-- `erase(begin, find_if(begin, end, !isspace))`
unfoldable pub trim_front : Text → Text
trim_front [] = []
trim_front (c ∷ s) = if is_space c then trim_front s else c ∷ s

-- The second `erase` does the same from the back.
unfoldable pub trim_copy : Text → Text
trim_copy value = reverse (trim_front (reverse (trim_front value)))

-- std::string::find: the first index from which `s` starts with `needle`
unfoldable pub index_of : Text → Text → Option ℕ
index_of needle [] = if starts_with needle [] then some 0 else none
index_of needle (c ∷ s) =
    if starts_with needle (c ∷ s) then some 0 else Option.map suc (index_of needle s)

-- std::string::find with a start position; `none` is npos
unfoldable pub find : Text → Text → ℕ → Option ℕ
find s needle pos =
    if leb pos (length s) then Option.map (λ i. pos + i) (index_of needle (drop pos s)) else none

-- std::string::replace
unfoldable pub replace : Text → ℕ → ℕ → Text → Text
replace s pos count by = take pos s ++ (by ++ drop (pos + count) s)

abbrev pub bar : ℕ
bar = b'|'

-- The inner `while` for one delimiter. Each round puts one `|` in place of the delimiter that was
-- found and goes on behind it.
unfoldable pub mark_delimiter : ℕ → Text → Text → ℕ → Text
mark_delimiter zero delimiter normalized pos = normalized
mark_delimiter (suc fuel) delimiter normalized pos = elim (find normalized delimiter pos) [
  | none ↦ normalized
  | some at ↦
      mark_delimiter fuel delimiter (replace normalized at (length delimiter) (bar ∷ [])) (at + 1)
]

-- The `for` over the delimiters. A round moves `pos` forward, so the size bounds the rounds.
unfoldable pub mark_delimiters : List Text → Text → Text
mark_delimiters [] normalized = normalized
mark_delimiters (delimiter ∷ rest) normalized =
    mark_delimiters rest (mark_delimiter (suc (length normalized)) delimiter normalized 0)

abbrev pub delimiters : List Text
delimiters = codes "->" ∷ codes "," ∷ codes ";" ∷ []

-- `if (!token.empty()) points.push_back(token)`
unfoldable pub push_token : List Text → Text → List Text
push_token points token = if not (is_empty token) then points ++ token ∷ [] else points

-- The second `while`. With `end == npos` the count of `substr` passes the end, so the rest is taken.
unfoldable pub collect : ℕ → Text → ℕ → List Text → List Text
collect zero normalized start points = points
collect (suc fuel) normalized start points =
    let rest : List Text = elim (find normalized (bar ∷ []) start) [
      | none ↦ push_token points (trim_copy (drop start normalized))
      | some end ↦
          collect fuel normalized (end + 1)
            (push_token points (trim_copy (take (end - start) (drop start normalized))))
    ] in
    if leb start (length normalized) then rest else points

-- `if (points.empty()) …`, then `if (points.size() == 1) …`
unfoldable pub pad_points : Text → List Text → List Text
pad_points raw [] = raw ∷ raw ∷ []
pad_points raw (p ∷ []) = p ∷ p ∷ []
pad_points raw (p ∷ q ∷ points) = p ∷ q ∷ points

unfoldable pub split_route_points : Text → List Text
split_route_points raw_points =
    let normalized = mark_delimiters delimiters raw_points in
    pad_points raw_points (collect (suc (length normalized)) normalized 0 [])

-- ParseMongoTripDocument: `raw_points += " -> " + points[i]` for the points behind the first
unfoldable pub extend_raw : Text → List Text → Text
extend_raw raw [] = raw
extend_raw raw (p ∷ points) = extend_raw (raw ++ (codes " -> " ++ p)) points

-- ParseMongoTripDocument: the raw text that is rebuilt where the document has an empty one
unfoldable pub rebuild_raw : Text → List Text → Text
rebuild_raw raw [] = raw
rebuild_raw raw (p ∷ points) = if is_empty raw then extend_raw p points else raw
