-- ===== src/RoutePoints/Trim.antt =====
-- What `TrimCopy` leaves of its argument.
use mathlib.Core.List.{reverse, reverse-append, reverse-reverse, reverse-cons}
use sd_hw.Prelude.{
  ℕ, ◌≤◌, ◌≡◌, refl, sym, ap, ◌∙◌, inl, inr, true, false, [], All, All-append, ◌∷◌, ◌++◌, arith,
  Text, length, Bool-cases,
}
use sd_hw.RoutePoints.{is_space, trim_front, trim_copy}

-- No white space at either end.
pub record IsTrimmed (t : Text) : Type 0 where
  pub front : trim_front t ≡ t
  pub back : trim_front (reverse t) ≡ reverse t

pub trim_front_concat :
    (s : Text) (c : ℕ) → is_space c ≡ false → trim_front (s ++ c ∷ []) ≡ trim_front s ++ c ∷ []
unfolding trim_front
trim_front_concat [] c h = rw h
trim_front_concat (d ∷ s) c h = elim (Bool-cases (is_space d)) [
  | inl e ↦ rw e (trim_front_concat s c h)
  | inr e ↦ rw e
]

trim_front_idem : (s : Text) → trim_front (trim_front s) ≡ trim_front s
unfolding trim_front
trim_front_idem [] = refl
trim_front_idem (c ∷ s) = ground (arith, trim_front_idem s)

-- The back of a text that begins with no white space is trimmed without touching its first byte.
trim_back_cons :
    (c : ℕ) (s : Text)
    → is_space c ≡ false
    → reverse (trim_front (reverse (c ∷ s))) ≡ c ∷ reverse (trim_front (reverse s))
trim_back_cons c s h = rw (
  reverse-cons c s,
  trim_front_concat (reverse s) c h,
  reverse-append (trim_front (reverse s)) (c ∷ []),
)

length-trim_front : (s : Text) → length (trim_front s) ≤ length s
unfolding trim_front
length-trim_front [] = omega arith
length-trim_front (c ∷ s) = ground (arith, length-trim_front s)

pub not_space_head : (c : ℕ) (s : Text) → trim_front (c ∷ s) ≡ c ∷ s → is_space c ≡ false
unfolding trim_front
not_space_head c s h = elim (Bool-cases (is_space c)) [
  | inl e ↦ absurd (omega (arith, length-trim_front s, ap length (rw e at h)))
  | inr e ↦ e
]

trim_back_front :
    (s : Text)
    → trim_front s ≡ s
    → trim_front (reverse (trim_front (reverse s))) ≡ reverse (trim_front (reverse s))
unfolding trim_front
trim_back_front [] h = refl
trim_back_front (c ∷ s) h =
    let solid = not_space_head c s h in rw (trim_back_cons c s solid) (rw solid)

pub trim_copy-IsTrimmed : (v : Text) → IsTrimmed (trim_copy v)
unfolding trim_copy
trim_copy-IsTrimmed v = record {
  front = trim_back_front (trim_front v) (trim_front_idem v);
  back = rw reverse-reverse (trim_front_idem (reverse (trim_front v)));
}

pub trim_copy_lem : (t : Text) → IsTrimmed t → trim_copy t ≡ t
unfolding trim_copy
trim_copy_lem t h = rw (h.front, h.back) (reverse-reverse t)

-- Nothing but white space.
abbrev pub Blank : Text → Type 0
Blank = All (λ c. is_space c ≡ true)

trim_front-split : (s : Text) → (a : Text) × (s ≡ a ++ trim_front s) × Blank a
unfolding trim_front
trim_front-split [] = ([], refl, tt)
trim_front-split (c ∷ s) = elim (Bool-cases (is_space c)) [
  | inl e ↦
      let (a, split, blank) = trim_front-split s in (c ∷ a, rw e (ap (◌∷◌ c) split), (e, blank))
  | inr e ↦ ([], rw e refl, tt)
]

Blank-reverse : (s : Text) → Blank s → Blank (reverse s)
Blank-reverse [] h = tt
Blank-reverse (c ∷ s) h =
    rw (reverse-cons c s)
      (All-append (λ d. is_space d ≡ true) (reverse s) (c ∷ []) (Blank-reverse s h.1) (h.0, tt))

trim_back-split : (s : Text) → (b : Text) × (s ≡ reverse (trim_front (reverse s)) ++ b) × Blank b
trim_back-split s =
    let (b, split, blank) = trim_front-split (reverse s) in
    (
      reverse b,
      sym (reverse-reverse s) ∙ ap reverse split ∙ reverse-append b _,
      Blank-reverse b blank,
    )

-- A text and what is left of it after trimming.
pub record Trims (value t : Text) : Type 0 where
  pub before : Text
  pub after : Text
  pub split : value ≡ before ++ (t ++ after)
  pub before_blank : Blank before
  pub after_blank : Blank after
  pub trimmed : IsTrimmed t

-- Trimming takes white space alone from the two ends of a text, and all of it.
pub trim_copy-Trims : (value : Text) → Trims value (trim_copy value)
unfolding trim_copy
trim_copy-Trims value =
    let (a, front, a_blank) = trim_front-split value in
    let (b, back, b_blank) = trim_back-split (trim_front value) in
    record {
      before = a;
      after = b;
      split = front ∙ ap (◌++◌ a) back;
      before_blank = a_blank;
      after_blank = b_blank;
      trimmed = trim_copy-IsTrimmed value;
    }
