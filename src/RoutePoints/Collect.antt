-- ===== src/RoutePoints/Collect.antt =====
-- The loop that cuts the normalized text at `|`, and the whole function, against the reference.
use sd_hw.Prelude.{
  ℕ, zero, suc, ◌+◌, ◌-◌, ◌<◌, ◌≡◌, refl, sym, ap, ◌∙◌, ◌⊎◌, none, some, inl, inr, true, false,
  List, [], ◌∷◌, ◌++◌, append_assoc, append-nil, arith, Text, starts_with, leb, ◌==◌, is_empty,
  length, take, drop, length-append, take-length_append, drop-length_append, Option-cases,
  Bool-cases, ==_iff,
}
use sd_hw.RoutePoints.{
  pad_points, bar, index_of, push_token, trim_copy, collect, split_route_points,
}
use sd_hw.RoutePoints.Spec.{split_on, tokens, normalize, route_points}
use sd_hw.RoutePoints.Find.{find-append, behind, shorter}
use sd_hw.RoutePoints.Loops.{mark_delimiters-normalize}

record CutAt (b : ℕ) (s : Text) (i : ℕ) : Type 0 where
  pre : Text
  post : Text
  split : s ≡ pre ++ b ∷ post
  at : i ≡ length pre
  pieces : split_on b s ≡ pre ∷ split_on b post

CutAt-cons :
    (b c i j : ℕ) (s : Text) → (c == b) ≡ false → CutAt b s j → i ≡ suc j → CutAt b (c ∷ s) i
unfolding split_on
CutAt-cons b c i j s h f e = record {
  pre = c ∷ f.pre;
  post = f.post;
  split = ap (◌∷◌ c) f.split;
  at = e ∙ ap suc f.at;
  pieces = rw (h, f.pieces);
}

index_of-CutAt : (b : ℕ) (s : Text) (i : ℕ) → index_of (b ∷ []) s ≡ some i → CutAt b s i
unfolding index_of starts_with split_on
index_of-CutAt b [] i h = cc
index_of-CutAt b (c ∷ s) i h =
    by_test (Bool-cases (c == b)) (Option-cases (index_of (b ∷ []) s)) (index_of-CutAt b s)
  where
    by_test :
        (((c == b) ≡ true) ⊎ ((c == b) ≡ false))
        → ((index_of (b ∷ []) s ≡ none) ⊎ ((j : ℕ) × (index_of (b ∷ []) s ≡ some j)))
        → ((j : ℕ) → index_of (b ∷ []) s ≡ some j → CutAt b s j)
        → CutAt b (c ∷ s) i
    by_test (inl hit) _ later = record {
      pre = [];
      post = s;
      split = ap (λ (a : ℕ). a ∷ s) ((==_iff c b).0 hit);
      at = ground arith;
      pieces = rw hit;
    }
    by_test (inr miss) (inl e) later = absurd (ground arith)
    by_test (inr miss) (inr (j, e)) later = CutAt-cons b c i j s miss (later j e) (ground arith)

split_on-none : (b : ℕ) (s : Text) → index_of (b ∷ []) s ≡ none → split_on b s ≡ s ∷ []
unfolding split_on index_of starts_with
split_on-none b [] h = refl
split_on-none b (c ∷ s) h = ground (arith, split_on-none b s)

tokens-cons :
    (piece : Text) (pieces : List Text) (points : List Text)
    → points ++ tokens (piece ∷ pieces) ≡ push_token points (trim_copy piece) ++ tokens pieces
unfolding tokens push_token
tokens-cons piece pieces points = elim (Bool-cases (is_empty (trim_copy piece))) [
  | inl e ↦ rw e
  | inr e ↦ rw e (simp append_assoc)
]

tokens-one :
    (piece : Text) (points : List Text)
    → points ++ tokens (piece ∷ []) ≡ push_token points (trim_copy piece)
tokens-one piece points = tokens-cons piece [] points ∙ no_more
  where
    no_more : push_token points (trim_copy piece) ++ tokens [] ≡ push_token points (trim_copy piece)
    no_more = unfold tokens in append-nil _

within_append : (done rest : Text) → leb (length done) (length (done ++ rest)) ≡ true
within_append done rest = ground (arith, length-append done rest)

cut-append :
    (done pre post : Text) (i : ℕ)
    → i ≡ length pre
    → take (length done + i - length done) (drop (length done) (done ++ (pre ++ bar ∷ post))) ≡ pre
cut-append done pre post i e =
    rw (drop-length_append done (pre ++ bar ∷ post), less) (take-length_append pre (bar ∷ post))
  where
    less : length done + i - length done ≡ length pre
    less = omega arith

regroup : (done pre post : Text) → done ++ (pre ++ bar ∷ post) ≡ (done ++ (pre ++ bar ∷ [])) ++ post
regroup done pre post = simp append_assoc

pub collect-tokens :
    (fuel : ℕ) (done rest : Text) (points : List Text)
    → length rest < fuel
    → collect fuel (done ++ rest) (length done) points ≡ points ++ tokens (split_on bar rest)
unfolding collect
collect-tokens zero done rest points h = absurd (omega arith)
collect-tokens (suc fuel) done rest points h =
    by_find (Option-cases (index_of (bar ∷ []) rest)) (collect-tokens fuel)
  where
    Loop : Type 0
    Loop =
        (done rest : Text) (points : List Text)
        → length rest < fuel
        → collect fuel (done ++ rest) (length done) points ≡ points ++ tokens (split_on bar rest)

    round :
        Loop
        → (j : ℕ) → CutAt bar rest j
        → collect fuel (done ++ rest) (length done + j + 1) (
            push_token points (
              trim_copy (take (length done + j - length done) (drop (length done) (done ++ rest)))))
          ≡ points ++ tokens (split_on bar rest)
    round ih j f =
        let at : length done + j ≡ length done + length f.pre =
          ap (λ (n : ℕ). length done + n) f.at in
        let small : length f.post < fuel =
          omega (arith, shorter f.pre bar [] f.post, ap length f.split) in
        rw
          (
            f.pieces,
            behind done f.pre (length done + j) at,
            tokens-cons f.pre (split_on bar f.post) points,
            f.split,
          )
          (rw (cut-append done f.pre f.post j f.at, regroup done f.pre f.post)
            (ih (done ++ (f.pre ++ bar ∷ [])) f.post (push_token points (trim_copy f.pre)) small))

    by_find :
        ((index_of (bar ∷ []) rest ≡ none) ⊎ ((j : ℕ) × (index_of (bar ∷ []) rest ≡ some j)))
        → Loop
        → collect (suc fuel) (done ++ rest) (length done) points
          ≡ points ++ tokens (split_on bar rest)
    by_find (inl e) ih =
        rw
          (
            within_append done rest,
            find-append (bar ∷ []) done rest none e,
            drop-length_append done rest,
            split_on-none bar rest e,
          )
          (sym (tokens-one rest points))
    by_find (inr (j, e)) ih =
        rw (within_append done rest, find-append (bar ∷ []) done rest (some j) e)
          (round ih j (index_of-CutAt bar rest j e))

-- The code, with its loops and positions, computes the reference.
pub split_route_points-eq-route_points : (raw : Text) → split_route_points raw ≡ route_points raw
unfolding split_route_points route_points
split_route_points-eq-route_points raw =
    rw mark_delimiters-normalize
      (ap (pad_points raw) (collect-tokens _ [] (normalize raw) [] (omega arith)))
