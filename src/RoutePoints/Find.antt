-- ===== src/RoutePoints/Find.antt =====
-- What `find` returns, told without positions: the text before the needle and the text behind it.
use mathlib.Core.Option
use sd_hw.Prelude.{
  ℕ, suc, ◌+◌, ◌-◌, ◌<◌, ◌≡◌, refl, ap, ◌∙◌, ◌⊎◌, Option, none, some, inl, inr, true, false, [],
  ◌∷◌, ◌++◌, append_assoc, arith, Text, starts_with, starts_with-append, starts_with-split, leb,
  length, drop, length-append, take-length_append, drop-length_append, Bool-cases, Option-cases,
}
use sd_hw.RoutePoints.{bar, index_of, find, replace}
use sd_hw.RoutePoints.Spec.{replace_all}

replace_all-skip : (d p post : Text) → replace_all d (length p) (p ++ post) ≡ replace_all d 0 post
unfolding replace_all
replace_all-skip d [] post = refl
replace_all-skip d (c ∷ p) post = replace_all-skip d p post

pred_length : (d : Text) → suc (length d) - 1 ≡ length d
pred_length d = omega arith

pub replace_all-hit :
    (a : ℕ) (d post : Text)
    → replace_all (a ∷ d) 0 ((a ∷ d) ++ post) ≡ bar ∷ replace_all (a ∷ d) 0 post
unfolding replace_all starts_with
replace_all-hit a d post =
    rw (starts_with-append (a ∷ d) post, pred_length d, replace_all-skip (a ∷ d) d post)

pub replace_all-miss :
    (d s : Text) (c : ℕ)
    → starts_with d (c ∷ s) ≡ false
    → replace_all d 0 (c ∷ s) ≡ c ∷ replace_all d 0 s
unfolding replace_all
replace_all-miss d s c h = rw h

-- Where the needle first occurs, and what one pass makes of the text.
pub record FirstAt (a : ℕ) (d s : Text) (i : ℕ) : Type 0 where
  pub pre : Text
  pub post : Text
  pub split : s ≡ pre ++ ((a ∷ d) ++ post)
  pub at : i ≡ length pre
  pub passed : replace_all (a ∷ d) 0 s ≡ pre ++ bar ∷ replace_all (a ∷ d) 0 post

FirstAt-cons :
    (a : ℕ) (d s : Text) (c i j : ℕ)
    → starts_with (a ∷ d) (c ∷ s) ≡ false
    → FirstAt a d s j
    → i ≡ suc j
    → FirstAt a d (c ∷ s) i
FirstAt-cons a d s c i j h f e = record {
  pre = c ∷ f.pre;
  post = f.post;
  split = ap (◌∷◌ c) f.split;
  at = e ∙ ap suc f.at;
  passed = replace_all-miss (a ∷ d) s c h ∙ ap (◌∷◌ c) f.passed;
}

FirstAt-zero : (a : ℕ) (d s : Text) (i : ℕ) → starts_with (a ∷ d) s ≡ true → i ≡ 0 → FirstAt a d s i
FirstAt-zero a d s i h e =
    let (post, split) = starts_with-split (a ∷ d) s h in
    record {
      pre = [];
      post = post;
      split = split;
      at = e;
      passed = ap (replace_all (a ∷ d) 0) split ∙ replace_all-hit a d post;
    }

pub index_of-FirstAt : (a : ℕ) (d s : Text) (i : ℕ) → index_of (a ∷ d) s ≡ some i → FirstAt a d s i
unfolding index_of starts_with
index_of-FirstAt a d [] i h = cc
index_of-FirstAt a d (c ∷ s) i h = by_test (index_of-FirstAt a d s)
  where
    later :
        starts_with (a ∷ d) (c ∷ s) ≡ false
        → ((j : ℕ) → index_of (a ∷ d) s ≡ some j → FirstAt a d s j)
        → (o : (index_of (a ∷ d) s ≡ none) ⊎ ((j : ℕ) × (index_of (a ∷ d) s ≡ some j)))
        → FirstAt a d (c ∷ s) i
    later miss rest (inl e) = absurd (ground arith)
    later miss rest (inr (j, e)) = FirstAt-cons a d s c i j miss (rest j e) (ground arith)

    by_test : ((j : ℕ) → index_of (a ∷ d) s ≡ some j → FirstAt a d s j) → FirstAt a d (c ∷ s) i
    by_test rest = elim (Bool-cases (starts_with (a ∷ d) (c ∷ s))) [
      | inl hit ↦ FirstAt-zero a d (c ∷ s) i hit (ground arith)
      | inr miss ↦ later miss rest (Option-cases (index_of (a ∷ d) s))
    ]

pub index_of-none : (a : ℕ) (d s : Text) → index_of (a ∷ d) s ≡ none → replace_all (a ∷ d) 0 s ≡ s
unfolding index_of starts_with replace_all
index_of-none a d [] h = refl
index_of-none a d (c ∷ s) h = ground (arith, index_of-none a d s)

pub find-append :
    (needle done rest : Text) (o : Option ℕ)
    → index_of needle rest ≡ o
    → find (done ++ rest) needle (length done) ≡ Option.map (λ i. length done + i) o
unfolding find
find-append needle done rest o e = rw (within, drop-length_append done rest, e)
  where
    within : leb (length done) (length (done ++ rest)) ≡ true
    within = ground (arith, length-append done rest)

pub drop_past : (xs ys zs : Text) → drop (length xs + length ys) (xs ++ (ys ++ zs)) ≡ zs
drop_past xs ys zs =
    rw (← length-append xs ys, ← append_assoc xs ys zs) (drop-length_append (xs ++ ys) zs)

pub replace-append :
    (done pre needle post : Text) (at count : ℕ)
    → at ≡ length done + length pre
    → count ≡ length needle
    → replace (done ++ (pre ++ (needle ++ post))) at count (bar ∷ [])
      ≡ (done ++ (pre ++ bar ∷ [])) ++ post
unfolding replace
replace-append done pre needle post at count e n =
    rw (e, n, ← length-append done pre, ← append_assoc done pre (needle ++ post))
      (rw (take-length_append (done ++ pre) (needle ++ post), drop_past (done ++ pre) needle post)
        (simp append_assoc))

pub behind :
    (done pre : Text) (at : ℕ)
    → at ≡ length done + length pre
    → at + 1 ≡ length (done ++ (pre ++ bar ∷ []))
behind done pre at e =
    omega (arith, length-append done (pre ++ bar ∷ []), length-append pre (bar ∷ []))

pub shorter : (pre : Text) (a : ℕ) (d post : Text) → length post < length (pre ++ ((a ∷ d) ++ post))
shorter pre a d post = omega (arith, length-append pre ((a ∷ d) ++ post), length-append d post)
