-- ===== src/RoutePoints/RoundTrip.antt =====
-- The raw text that `ParseMongoTripDocument` rebuilds from the points, split again.
use sd_hw.Prelude.{
  ℕ, ◌≡◌, refl, ap, ◌∙◌, false, List, [], ◌∷◌, ◌++◌, map, append_assoc, arith, Text, codes,
  starts_with, All, is_empty,
}
use mathlib.Core.List.{map-append, reverse-append, reverse-reverse}
use sd_hw.RoutePoints.{
  bar, is_space, trim_copy, trim_front, pad_points, extend_raw, rebuild_raw, split_route_points,
}
use sd_hw.RoutePoints.Spec.{replace_all, onto_head, split_on, tokens, normalize, route_points}
use sd_hw.RoutePoints.Collect.{split_route_points-eq-route_points}
use sd_hw.RoutePoints.Trim.{IsTrimmed, trim_copy_lem, not_space_head}
use sd_hw.RoutePoints.Pieces.{arrow, NoArrow, Lacks, IsPlain, swap, replace_all_byte}
use sd_hw.RoutePoints.Points.{IsPoint}

-- The points with " -> " between them, grouped to the right.
abbrev joined : Text → List Text → Text
joined p [] = p
joined p (q ∷ points) = p ++ (codes " -> " ++ joined q points)

extend_raw-joined :
    (a p : Text) (points : List Text) → extend_raw (a ++ p) points ≡ a ++ joined p points
unfolding extend_raw
extend_raw-joined a p [] = refl
extend_raw-joined a p (q ∷ points) =
    let rest = extend_raw-joined (a ++ (p ++ codes " -> ")) q points in
    rw (append_assoc a p (codes " -> " ++ q)) (simp append_assoc at rest)

replace_arrow_gap :
    (p r : Text)
    → NoArrow p
    → replace_all arrow 0 (p ++ (codes " -> " ++ r)) ≡ p ++ (codes " | " ++ replace_all arrow 0 r)
unfolding replace_all starts_with
replace_arrow_gap [] r h = refl
replace_arrow_gap (c ∷ []) r h = ground arith
replace_arrow_gap (c ∷ d ∷ p) r h = ground (arith, replace_arrow_gap (d ∷ p) r h.1)

replace_arrow_plain : (p : Text) → NoArrow p → replace_all arrow 0 p ≡ p
unfolding replace_all
replace_arrow_plain [] h = refl
replace_arrow_plain (c ∷ p) h = rw (h.0, replace_arrow_plain p h.1)

swap_plain : (b : ℕ) (p : Text) → Lacks b p → map (swap b) p ≡ p
swap_plain b [] h = refl
swap_plain b (c ∷ p) h = rw (h.0, swap_plain b p h.1)

normalize_plain : (p : Text) → IsPlain p → normalize p ≡ p
unfolding normalize
normalize_plain p h =
    rw
      (
        replace_arrow_plain p h.arrow,
        replace_all_byte b',' p,
        swap_plain b',' p h.comma,
        replace_all_byte b';' p,
      )
      (swap_plain b';' p h.semicolon)

normalize_gap :
    (p r : Text)
    → IsPlain p
    → normalize (p ++ (codes " -> " ++ r)) ≡ p ++ (codes " | " ++ normalize r)
unfolding normalize
normalize_gap p r h =
    rw (replace_arrow_gap p r h.arrow) (
      simp (replace_all_byte, map-append, swap_plain b',' p h.comma, swap_plain b';' p h.semicolon))

split_on_plain : (p : Text) → Lacks bar p → split_on bar p ≡ p ∷ []
unfolding split_on
split_on_plain [] h = refl
split_on_plain (c ∷ p) h = rw (h.0, split_on_plain p h.1)

split_on_bar :
    (p r : Text)
    → Lacks bar p
    → split_on bar (p ++ (codes " | " ++ r)) ≡ (p ++ codes " ") ∷ onto_head b' ' (split_on bar r)
unfolding split_on
split_on_bar [] r h = refl
split_on_bar (c ∷ p) r h = rw (h.0, split_on_bar p r h.1)

trim_copy_gap : (p : Text) → is_empty p ≡ false → IsTrimmed p → trim_copy (p ++ codes " ") ≡ p
unfolding trim_copy trim_front is_space
trim_copy_gap [] solid t = cc
trim_copy_gap (c ∷ p) solid t =
    rw (not_space_head c p t.front, reverse-append (c ∷ p) (codes " "))
      (rw t.back (reverse-reverse (c ∷ p)))

tokens_point :
    (p : Text) (piece : Text) (pieces : List Text)
    → is_empty p ≡ false
    → trim_copy piece ≡ p
    → tokens (piece ∷ pieces) ≡ p ∷ tokens pieces
unfolding tokens
tokens_point p piece pieces solid e = rw (e, solid)

-- A blank before the first piece is trimmed away.
tokens_blank : (pieces : List Text) → tokens (onto_head b' ' pieces) ≡ tokens pieces
unfolding tokens trim_copy trim_front is_space
tokens_blank [] = refl
tokens_blank (piece ∷ pieces) = refl

tokens_joined :
    (p : Text) (points : List Text)
    → All IsPoint (p ∷ points)
    → tokens (split_on bar (normalize (joined p points))) ≡ p ∷ points
tokens_joined p [] h =
    rw (normalize_plain p h.0.plain, split_on_plain p h.0.plain.bar)
      (tokens_point p p [] h.0.solid (trim_copy_lem p h.0.trimmed)
        ∙ ap (◌∷◌ p) (unfold tokens in refl))
tokens_joined p (q ∷ points) h = rw (normalize_gap p (joined q points) h.0.plain) (
    rw (split_on_bar p (normalize (joined q points)) h.0.plain.bar) (
      tokens_point p (p ++ codes " ") _ h.0.solid (trim_copy_gap p h.0.solid h.0.trimmed)
      ∙ ap (◌∷◌ p)
          (tokens_blank (split_on bar (normalize (joined q points))) ∙ tokens_joined q points h.1)))

-- The raw text that is rebuilt for a document with an empty one splits into the document's points,
-- if these are two or more proper points.
pub split_route_points-rebuild_raw :
    (p q : Text) (points : List Text)
    → All IsPoint (p ∷ q ∷ points)
    → split_route_points (rebuild_raw [] (p ∷ q ∷ points)) ≡ p ∷ q ∷ points
unfolding rebuild_raw
split_route_points-rebuild_raw p q points h =
    rw (split_route_points-eq-route_points, extend_raw-joined [] p (q ∷ points))
      (unfold route_points pad_points in ap (pad_points _) (tokens_joined p (q ∷ points) h))
