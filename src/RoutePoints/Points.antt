-- ===== src/RoutePoints/Points.antt =====
-- What every list of route points satisfies.
use sd_hw.Prelude.{
  ◌≤◌, ◌≡◌, refl, ◌⊎◌, inl, inr, false, List, [], ◌∷◌, arith, Text, All, length, is_empty,
  Bool-cases,
}
use sd_hw.RoutePoints.{bar, trim_copy, pad_points, split_route_points}
use sd_hw.RoutePoints.Spec.{split_on, tokens, normalize, route_points}
use sd_hw.RoutePoints.Collect.{split_route_points-eq-route_points}
use sd_hw.RoutePoints.Trim.{IsTrimmed, trim_copy-IsTrimmed, trim_copy-Trims}
use sd_hw.RoutePoints.Pieces.{IsPlain, IsPlain-piece, pieces-IsPlain}

-- A point of a route: some text, trimmed, with no delimiter in it.
pub record IsPoint (t : Text) : Type 0 where
  pub solid : is_empty t ≡ false
  pub trimmed : IsTrimmed t
  pub plain : IsPlain t

trim_copy-IsPlain : (t : Text) → IsPlain t → IsPlain (trim_copy t)
trim_copy-IsPlain t h =
    let cut = trim_copy-Trims t in
    IsPlain-piece cut.before (trim_copy t) cut.after (rw (← cut.split) h)

tokens-IsPoint : (pieces : List Text) → All IsPlain pieces → All IsPoint (tokens pieces)
unfolding tokens
tokens-IsPoint [] h = tt
tokens-IsPoint (t ∷ pieces) h = elim (Bool-cases (is_empty (trim_copy t))) [
  | inl e ↦ rw e (tokens-IsPoint pieces h.1)
  | inr e ↦ rw e (
    record { solid = e; trimmed = trim_copy-IsTrimmed t; plain = trim_copy-IsPlain t h.0 },
    tokens-IsPoint pieces h.1,
  )
]

pad_points-IsPoint :
    (raw : Text) (points : List Text)
    → All IsPoint points
    → ((points ≡ []) × (pad_points raw points ≡ raw ∷ raw ∷ []))
      ⊎ All IsPoint (pad_points raw points)
unfolding pad_points
pad_points-IsPoint raw [] h = inl (refl, refl)
pad_points-IsPoint raw (p ∷ []) h = inr (h.0, (h.0, tt))
pad_points-IsPoint raw (p ∷ q ∷ points) h = inr h

-- Every point of a route is non-empty, has no white space at its ends and no delimiter inside;
-- only a raw text with no such piece at all is kept, twice, as it is.
pub split_route_points-IsPoint :
    (raw : Text)
    → ((tokens (split_on bar (normalize raw)) ≡ []) × (split_route_points raw ≡ raw ∷ raw ∷ []))
      ⊎ All IsPoint (split_route_points raw)
split_route_points-IsPoint raw = rw split_route_points-eq-route_points (
    unfold route_points in
    pad_points-IsPoint raw (tokens (split_on bar (normalize raw)))
      (tokens-IsPoint (split_on bar (normalize raw)) (pieces-IsPlain raw)))

length-pad_points : (raw : Text) (points : List Text) → 2 ≤ length (pad_points raw points)
unfolding pad_points
length-pad_points raw [] = omega arith
length-pad_points raw (p ∷ []) = omega arith
length-pad_points raw (p ∷ q ∷ points) = omega arith

-- A route has at least two points, as the validator of the trips collection demands.
pub length-split_route_points : (raw : Text) → 2 ≤ length (split_route_points raw)
length-split_route_points raw =
    rw split_route_points-eq-route_points
      (unfold route_points in length-pad_points raw (tokens (split_on bar (normalize raw))))
