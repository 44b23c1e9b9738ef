-- ===== src/Examples/Points.antt =====
-- The theorems on route points, at concrete routes.
use sd_hw.Prelude.{arith, ◌≤◌, ◌≡◌, ◌⊎◌, refl, [], ◌∷◌, Text, codes, starts_with, All, length}
use sd_hw.RoutePoints.{
  bar, is_space, trim_front, trim_copy, index_of, find, replace, mark_delimiter, mark_delimiters,
  push_token, collect, pad_points, split_route_points, rebuild_raw,
}
use sd_hw.RoutePoints.Spec.{route_points, split_on, tokens, normalize}
use sd_hw.RoutePoints.Collect.{split_route_points-eq-route_points}
use sd_hw.RoutePoints.Trim.{Trims, trim_copy-Trims}
use sd_hw.RoutePoints.Ends.{loops_end}
use sd_hw.RoutePoints.Points.{IsPoint, split_route_points-IsPoint, length-split_route_points}
use sd_hw.RoutePoints.RoundTrip.{split_route_points-rebuild_raw}

abbrev raw : Text
raw = codes " Moscow -> Tver,, Saint Petersburg ;"

split_moscow :
    split_route_points raw ≡ codes "Moscow" ∷ codes "Tver" ∷ codes "Saint Petersburg" ∷ []
unfolding split_route_points mark_delimiters mark_delimiter find index_of replace collect push_token
    trim_copy trim_front is_space pad_points starts_with
split_moscow = refl

-- A single point stands twice, and so does a text with no point.
split_short :
    (split_route_points (codes "Tver") ≡ codes "Tver" ∷ codes "Tver" ∷ [])
    × (split_route_points (codes " ;") ≡ codes " ;" ∷ codes " ;" ∷ [])
unfolding split_route_points mark_delimiters mark_delimiter find index_of replace collect push_token
    trim_copy trim_front is_space pad_points starts_with
split_short = (refl, refl)

split_route_points-eq-route_points_example : split_route_points raw ≡ route_points raw
split_route_points-eq-route_points_example = split_route_points-eq-route_points raw

split_route_points-IsPoint_example :
    ((tokens (split_on bar (normalize raw)) ≡ []) × (split_route_points raw ≡ raw ∷ raw ∷ []))
    ⊎ All IsPoint (split_route_points raw)
split_route_points-IsPoint_example = split_route_points-IsPoint raw

length-split_route_points_example : 2 ≤ length (split_route_points (codes "Tver"))
length-split_route_points_example = length-split_route_points (codes "Tver")

IsPoint-a : IsPoint (codes "A")
unfolding trim_front is_space starts_with
IsPoint-a = record {
  solid = refl;
  trimmed = record { front = refl; back = refl };
  plain = record {
    arrow = (refl, tt);
    comma = (refl, tt);
    semicolon = (refl, tt);
    bar = (refl, tt);
  };
}

split_route_points-rebuild_raw_example :
    split_route_points (rebuild_raw [] (codes "A" ∷ codes "A" ∷ [])) ≡ codes "A" ∷ codes "A" ∷ []
split_route_points-rebuild_raw_example =
    split_route_points-rebuild_raw (codes "A") (codes "A") [] (IsPoint-a, (IsPoint-a, tt))

trim_copy-Trims_example : Trims (codes " A ") (trim_copy (codes " A "))
trim_copy-Trims_example = trim_copy-Trims (codes " A ")

loops_end_example :
    (mark_delimiter 9 (codes "->") (codes "A->B;") 0
      ≡ mark_delimiter 6 (codes "->") (codes "A->B;") 0)
    × (collect 9 (codes "A->B;") 0 [] ≡ collect 6 (codes "A->B;") 0 [])
loops_end_example = loops_end b'-' (codes ">") (codes "A->B;") [] 9 (omega arith)
