-- ===== src/RoutePoints/Ends.antt =====
-- The two `while` loops of `SplitRoutePoints` end.
use sd_hw.Prelude.{ℕ, suc, ◌<◌, ◌≡◌, sym, ◌∙◌, List, [], ◌∷◌, Text, length, arith}
use sd_hw.RoutePoints.{mark_delimiter, collect}
use sd_hw.RoutePoints.Loops.{mark_delimiter-replace_all}
use sd_hw.RoutePoints.Collect.{collect-tokens}

-- On a text of n bytes each of the two loops has ended after n + 1 rounds: with more rounds allowed
-- the result is the same. For the first loop the delimiter has a byte at least.
pub loops_end :
    (a : ℕ) (d s : Text) (points : List Text) (fuel : ℕ)
    → length s < fuel
    → (mark_delimiter fuel (a ∷ d) s 0 ≡ mark_delimiter (suc (length s)) (a ∷ d) s 0)
      × (collect fuel s 0 points ≡ collect (suc (length s)) s 0 points)
loops_end a d s points fuel h = (
  mark_delimiter-replace_all a d fuel [] s h
      ∙ sym (mark_delimiter-replace_all a d (suc (length s)) [] s (omega arith)),
  collect-tokens fuel [] s points h
      ∙ sym (collect-tokens (suc (length s)) [] s points (omega arith)),
)
