-- ===== src/Startup/Constructed.antt =====
-- Names of constructed components: facts on looking one up, and on how many are left.
use package.text.Mathlib.Text.{◌==◌ as str_eq}
use package.text.Mathlib.TextEquality.{eq_iff}
use sd_hw.Prelude.{
  ℕ, ◌+◌, ◌≤◌, ◌≡◌, refl, subst, ◌⊎◌, inl, inr, true, false, List, [], ◌∷◌, ◌++◌, String,
  if◌then◌else◌, length, arith, Bool-cases,
}
use sd_hw.Services.{Services}
use sd_hw.Startup.Components.{Component}
use sd_hw.Startup.{constructed, all_constructed, In}

-- Every name of the first list stands in the second.
pub record Within (names more : List String) : Type 0 where
  pub at : (name : String) → constructed name names ≡ true → constructed name more ≡ true

-- A name that is looked up behind another one.
constructed-cases :
    (name n : String) (names : List String)
    → constructed name (n ∷ names) ≡ true
    → (n ≡ name) ⊎ (constructed name names ≡ true)
unfolding constructed
constructed-cases name n names h = elim (Bool-cases (str_eq n name)) [
  | inl same ↦ inl ((eq_iff n name).0 same)
  | inr other ↦ inr (rw other at h)
]

constructed-head : (name : String) (names : List String) → constructed name (name ∷ names) ≡ true
unfolding constructed
constructed-head name names = rw ((eq_iff name name).1 refl) refl

pub constructed-cons :
    (name n : String) (names : List String)
    → constructed name names ≡ true
    → constructed name (n ∷ names) ≡ true
unfolding constructed
constructed-cons name n names h = elim (Bool-cases (str_eq n name)) [
  | inl same ↦ rw same refl
  | inr other ↦ rw other h
]

pub Within-head :
    (n : String) (names more : List String)
    → constructed n more ≡ true
    → Within names more
    → Within (n ∷ names) more
Within-head n names more h sub = record {
  at = λ name e. elim (constructed-cases name n names e) [
    | inl same ↦ subst (λ m. constructed m more ≡ true) same h
    | inr old ↦ sub.at name old
  ];
}

pub Within-cons :
    (n : String) (names more : List String) → Within names more → Within names (n ∷ more)
Within-cons n names more sub = record {
  at = λ name e. constructed-cons name n more (sub.at name e);
}

pub Within-append : (names more : List String) → Within names (names ++ more)
unfolding constructed
Within-append [] more = record { at = λ name e. absurd (cc) }
Within-append (n ∷ names) more =
    Within-head n names (n ∷ (names ++ more)) (constructed-head n (names ++ more))
      (Within-cons n names (names ++ more) (Within-append names more))

pub all_constructed-Within :
    (finds names more : List String)
    → Within names more
    → all_constructed finds names ≡ true
    → all_constructed finds more ≡ true
unfolding all_constructed
all_constructed-Within [] names more sub h = refl
all_constructed-Within (n ∷ finds) names more sub h = elim (Bool-cases (constructed n names)) [
  | inl hit ↦ rw (sub.at n hit) (all_constructed-Within finds names more sub (rw hit at h))
  | inr miss ↦ absurd (cc)
]

module _ {sv : Services} where
  -- How many constructors have not run.
  unfoldable pub missing : List (Component sv) → List String → ℕ
  missing [] names = 0
  missing (c ∷ cs) names =
      if constructed c.name names then missing cs names else 1 + missing cs names

  pub missing-length :
      (cs : List (Component sv)) (names : List String) → missing cs names ≤ length cs
  unfolding missing
  missing-length [] names = omega arith
  missing-length (c ∷ cs) names = ground (arith, missing-length cs names)

  missing-cons :
      (cs : List (Component sv)) (n : String) (names : List String)
      → missing cs (n ∷ names) ≤ missing cs names
  unfolding missing
  missing-cons [] n names = omega arith
  missing-cons (c ∷ cs) n names =
      let rest = missing-cons cs n names in
      elim (Bool-cases (constructed c.name names)) [
        | inl hit ↦ rw (hit, constructed-cons c.name n names hit) rest
        | inr miss ↦ rw miss (ground (arith, rest))
      ]

  -- A constructor that runs is one less.
  pub missing-constructs :
      (c : Component sv) (cs : List (Component sv)) (names : List String)
      → In c cs
      → constructed c.name names ≡ false
      → 1 + missing cs (c.name ∷ names) ≤ missing cs names
  unfolding missing
  missing-constructs c [] names h fresh = elim h [ ]
  missing-constructs c (d ∷ cs) names (inl same) fresh =
      let gone : constructed d.name (c.name ∷ names) ≡ true =
        subst (λ e. constructed e.name (c.name ∷ names) ≡ true) same
          (constructed-head c.name names) in
      let was : constructed d.name names ≡ false =
        subst (λ e. constructed e.name names ≡ false) same fresh in
      rw (gone, was) (omega (arith, missing-cons cs c.name names))
  missing-constructs c (d ∷ cs) names (inr later) fresh =
      let rest = missing-constructs c cs names later fresh in
      elim (Bool-cases (constructed d.name names)) [
        | inl hit ↦ rw (hit, constructed-cons d.name c.name names hit) rest
        | inr miss ↦ rw miss (ground (arith, rest))
      ]

  pub missing-constructed :
      (c : Component sv) (cs : List (Component sv)) (names : List String)
      → In c cs
      → missing cs names ≡ 0
      → constructed c.name names ≡ true
  unfolding missing
  missing-constructed c cs names h none_left = elim (Bool-cases (constructed c.name names)) [
    | inl hit ↦ hit
    | inr fresh ↦ absurd (omega (arith, none_left, missing-constructs c cs names h fresh))
  ]

  -- A component that moves from the front of a list behind its end: the same ones are missing, and
  -- the same ones are listed.
  pub missing-last :
      (c : Component sv) (cs : List (Component sv)) (names : List String)
      → missing (cs ++ c ∷ []) names ≡ missing (c ∷ cs) names
  unfolding missing
  missing-last c [] names = refl
  missing-last c (d ∷ cs) names = ground (arith, missing-last c cs names)

  pub missing-++ :
      (front cs ds : List (Component sv)) (names : List String)
      → missing cs names ≡ missing ds names
      → missing (front ++ cs) names ≡ missing (front ++ ds) names
  unfolding missing
  missing-++ [] cs ds names same = same
  missing-++ (d ∷ front) cs ds names same = rw (missing-++ front cs ds names same)

  pub In-last : (c : Component sv) (cs : List (Component sv)) → In c (cs ++ c ∷ [])
  In-last c [] = inl refl
  In-last c (d ∷ cs) = inr (In-last c cs)

  pub In-append : (d : Component sv) (cs ds : List (Component sv)) → In d cs → In d (cs ++ ds)
  In-append d [] ds h = elim h [ ]
  In-append d (c ∷ cs) ds (inl same) = inl same
  In-append d (c ∷ cs) ds (inr later) = inr (In-append d cs ds later)

  pub In-++ :
      (d : Component sv) (front cs ds : List (Component sv))
      → (In d cs → In d ds)
      → In d (front ++ cs)
      → In d (front ++ ds)
  In-++ d [] cs ds move h = move h
  In-++ d (c ∷ front) cs ds move (inl same) = inl same
  In-++ d (c ∷ front) cs ds move (inr later) = inr (In-++ d front cs ds move later)
