-- ===== src/RoutePoints/Spec.antt =====
-- What `SplitRoutePoints` computes, with no positions: each delimiter is rewritten in one pass over
-- the bytes, the result is cut at every `|`, and the trimmed pieces that are left are the points.
use sd_hw.Prelude.{
  ℕ, zero, suc, ◌-◌, not, List, [], ◌∷◌, map, Text, codes, starts_with, ◌==◌, if◌then◌else◌, length,
  is_empty, keep_if,
}
use sd_hw.RoutePoints.{bar, trim_copy, pad_points}

-- The number counts the bytes of the last delimiter that are still to be passed over.
unfoldable pub replace_all : Text → ℕ → Text → Text
replace_all needle zero [] = []
replace_all needle (suc skip) [] = []
replace_all needle (suc skip) (c ∷ s) = replace_all needle skip s
replace_all needle zero (c ∷ s) =
    let hit : Text = bar ∷ replace_all needle (length needle - 1) s in
    let miss : Text = c ∷ replace_all needle zero s in
    if starts_with needle (c ∷ s) then hit else miss

abbrev pub onto_head : ℕ → List Text → List Text
onto_head c [] = (c ∷ []) ∷ []
onto_head c (piece ∷ pieces) = (c ∷ piece) ∷ pieces

unfoldable pub split_on : ℕ → Text → List Text
split_on b [] = [] ∷ []
split_on b (c ∷ s) = let pieces = split_on b s in if c == b then [] ∷ pieces else onto_head c pieces

unfoldable pub tokens : List Text → List Text
tokens pieces = keep_if (λ t. not (is_empty t)) (map trim_copy pieces)

unfoldable pub normalize : Text → Text
normalize raw =
    replace_all (codes ";") 0 (replace_all (codes ",") 0 (replace_all (codes "->") 0 raw))

unfoldable pub route_points : Text → List Text
route_points raw = pad_points raw (tokens (split_on bar (normalize raw)))
