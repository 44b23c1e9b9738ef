-- ===== src/RoutePoints/Loops.antt =====
-- The loop over the delimiters against the reference.
use sd_hw.Prelude.{
  ℕ, zero, suc, ◌+◌, ◌<◌, ◌≡◌, refl, sym, ap, ◌⊎◌, none, some, inl, inr, [], ◌∷◌, ◌++◌,
  append_assoc, arith, Text, codes, length, Option-cases,
}
use sd_hw.RoutePoints.{bar, index_of, replace, mark_delimiter, mark_delimiters, delimiters}
use sd_hw.RoutePoints.Spec.{replace_all, normalize}
use sd_hw.RoutePoints.Find.{
  FirstAt, index_of-FirstAt, index_of-none, find-append, replace-append, behind, shorter,
}

-- One loop from behind `done`.
pub mark_delimiter-replace_all :
    (a : ℕ) (d : Text) (fuel : ℕ) (done rest : Text)
    → length rest < fuel
    → mark_delimiter fuel (a ∷ d) (done ++ rest) (length done) ≡ done ++ replace_all (a ∷ d) 0 rest
unfolding mark_delimiter
mark_delimiter-replace_all a d zero done rest h = absurd (omega arith)
mark_delimiter-replace_all a d (suc fuel) done rest h =
    by_find (Option-cases (index_of (a ∷ d) rest)) (mark_delimiter-replace_all a d fuel)
  where
    Loop : Type 0
    Loop =
        (done rest : Text)
        → length rest < fuel
        → mark_delimiter fuel (a ∷ d) (done ++ rest) (length done)
          ≡ done ++ replace_all (a ∷ d) 0 rest

    round :
        Loop
        → (j : ℕ) → FirstAt a d rest j
        → mark_delimiter fuel
            (a ∷ d)
            (replace (done ++ rest) (length done + j) (suc (length d)) (bar ∷ []))
            (length done + j + 1)
          ≡ done ++ replace_all (a ∷ d) 0 rest
    round ih j f =
        let at : length done + j ≡ length done + length f.pre =
          ap (λ (n : ℕ). length done + n) f.at in
        let small : length f.post < fuel =
          omega (arith, shorter f.pre a d f.post, ap length f.split) in
        rw (f.passed, behind done f.pre (length done + j) at, f.split)
          (rw (replace-append done f.pre (a ∷ d) f.post (length done + j) (suc (length d)) at refl)
            (rw (ih (done ++ (f.pre ++ bar ∷ [])) f.post small) (simp append_assoc)))

    by_find :
        ((index_of (a ∷ d) rest ≡ none) ⊎ ((j : ℕ) × (index_of (a ∷ d) rest ≡ some j)))
        → Loop
        → mark_delimiter (suc fuel) (a ∷ d) (done ++ rest) (length done)
          ≡ done ++ replace_all (a ∷ d) 0 rest
    by_find (inl e) ih =
        rw (find-append (a ∷ d) done rest none e, mark_delimiter)
          (ap (◌++◌ done) (sym (index_of-none a d rest e)))
    by_find (inr (j, e)) ih =
        rw (find-append (a ∷ d) done rest (some j) e, mark_delimiter)
          (round ih j (index_of-FirstAt a d rest j e))

pub mark_delimiters-normalize : (raw : Text) → mark_delimiters delimiters raw ≡ normalize raw
unfolding mark_delimiters normalize
mark_delimiters-normalize raw = rw (
  whole b'-' (b'>' ∷ []) raw,
  whole b',' [] (replace_all (codes "->") 0 raw),
  whole b';' [] (replace_all (codes ",") 0 (replace_all (codes "->") 0 raw)),
)
  where
    whole :
        (a : ℕ) (d s : Text) → mark_delimiter (suc (length s)) (a ∷ d) s 0 ≡ replace_all (a ∷ d) 0 s
    whole a d s = mark_delimiter-replace_all a d (suc (length s)) [] s (omega arith)
