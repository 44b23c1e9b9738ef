-- ===== src/MemoryStorage/Search.antt =====
-- What the searches of the storage in memory find.
use sd_hw.Prelude.{
  ℕ, suc, ◌≡◌, refl, sym, ap, ◌∙◌, subst, ◌⊎◌, inl, inr, Bool, true, false, none, some, List, [],
  ◌∷◌, ◌++◌, Text, leb, length, append_assoc, append-nil, starts_with, starts_with-append,
  starts_with-split, keep_if, Bool-cases, Option-cases, arith,
}
use sd_hw.Models.{User}
use sd_hw.App.Raises.{Listed}
use sd_hw.RoutePoints.{index_of, find}
use sd_hw.MemoryStorage.{Map, Memory, contains, matches, push_matching, search_users_by_name}

abbrev pub values : {A : Type 0} → Map A → List A
values [] = []
values ((key, a) ∷ rest) = a ∷ values rest

-- The mask stands somewhere in the text.
pub record IsPiece (mask s : Text) : Type 0 where
  pub before : Text
  pub after : Text
  pub split : s ≡ before ++ (mask ++ after)

index_of-IsPiece : (mask s : Text) (i : ℕ) → index_of mask s ≡ some i → IsPiece mask s
unfolding index_of
index_of-IsPiece mask [] i h = elim (Bool-cases (starts_with mask [])) [
  | inl e ↦
      let (post, split) = starts_with-split mask [] e in
      record { before = []; after = post; split = split }
  | inr e ↦ let wrong : none ≡ some i = (rw e at h) in cc wrong
]
index_of-IsPiece mask (c ∷ s) i h = elim (Bool-cases (starts_with mask (c ∷ s))) [
  | inl e ↦
      let (post, split) = starts_with-split mask (c ∷ s) e in
      record { before = []; after = post; split = split }
  | inr e ↦ elim (Option-cases (index_of mask s)) [
    | inl n ↦ let wrong : none ≡ some i = (rw (e, n) at h) in cc wrong
    | inr (j, at) ↦
        let p = index_of-IsPiece mask s j at in
        record { before = c ∷ p.before; after = p.after; split = ap (◌∷◌ c) p.split }
  ]
]

index_of-append :
    (mask before after : Text) → (i : ℕ) × (index_of mask (before ++ (mask ++ after)) ≡ some i)
unfolding index_of
index_of-append mask [] after = at_front (mask ++ after) (starts_with-append mask after)
  where
    at_front : (s : Text) → starts_with mask s ≡ true → (i : ℕ) × (index_of mask s ≡ some i)
    at_front [] e = rw e (0, refl)
    at_front (c ∷ s) e = rw e (0, refl)
index_of-append mask (c ∷ before) after =
    elim (Bool-cases (starts_with mask (c ∷ (before ++ (mask ++ after))))) [
      | inl e ↦ rw e (0, refl)
      | inr e ↦ let (i, at) = index_of-append mask before after in rw (e, at) (suc i, refl)
    ]

from_start : (s : Text) → leb 0 (length s) ≡ true
from_start s = ground arith

contains-IsPiece : (mask s : Text) → contains mask s ≡ true → IsPiece mask s
unfolding find
contains-IsPiece mask s h = elim (Option-cases (index_of mask s)) [
  | inl n ↦ let wrong : false ≡ true = (rw (from_start s, n) at h) in cc wrong
  | inr (i, at) ↦ index_of-IsPiece mask s i at
]

IsPiece-contains : (mask s : Text) → IsPiece mask s → contains mask s ≡ true
unfolding find
IsPiece-contains mask s p =
    let (i, at) = index_of-append mask p.before p.after in rw (from_start s) (rw (p.split, at) refl)

push_matching-keep_if :
    {A : Type 0} (test : A → Bool) (m : Map A) (result : List A)
    → push_matching test m result ≡ result ++ keep_if test (values m)
unfolding push_matching
push_matching-keep_if test [] result = sym (append-nil result)
push_matching-keep_if test ((key, a) ∷ rest) result = elim (Bool-cases (test a)) [
  | inl e ↦
      rw e (push_matching-keep_if test rest (result ++ a ∷ []) ∙ append_assoc result (a ∷ []) _)
  | inr e ↦ rw e (push_matching-keep_if test rest result)
]

module _ {A : Type 0} (test : A → Bool) where
  Listed-keep_if : (a : A) (l : List A) → Listed a l → test a ≡ true → Listed a (keep_if test l)
  Listed-keep_if a [] l h = elim l [ ]
  Listed-keep_if a (b ∷ l) (inl e) h = rw (← e, h) (inl refl)
  Listed-keep_if a (b ∷ l) (inr later) h = elim (Bool-cases (test b)) [
    | inl t ↦ rw t (inr (Listed-keep_if a l later h))
    | inr t ↦ rw t (Listed-keep_if a l later h)
  ]

  keep_if-Listed : (a : A) (l : List A) → Listed a (keep_if test l) → Listed a l × (test a ≡ true)
  keep_if-Listed a [] h = elim h [ ]
  keep_if-Listed a (b ∷ l) h = elim (Bool-cases (test b)) [
    | inl t ↦ elim (rw t at h) [
      | inl e ↦ (inl e, ap test e ∙ t)
      | inr later ↦ let (there, passed) = keep_if-Listed a l later in (inr there, passed)
    ]
    | inr t ↦ let (there, passed) = keep_if-Listed a l (rw t at h) in (inr there, passed)
  ]

abbrev pub IsFound : Text → Memory → User → Type 0
IsFound mask m user =
    Listed user (values m.users) × (IsPiece mask user.first_name ⊎ IsPiece mask user.last_name)

matches-IsPiece :
    (mask : Text) (user : User)
    → matches mask user ≡ true
    → IsPiece mask user.first_name ⊎ IsPiece mask user.last_name
matches-IsPiece mask user h = elim (Bool-cases (contains mask user.first_name)) [
  | inl e ↦ inl (contains-IsPiece mask user.first_name e)
  | inr e ↦ inr (contains-IsPiece mask user.last_name (rw e at h))
]

IsPiece-matches :
    (mask : Text) (user : User)
    → IsPiece mask user.first_name ⊎ IsPiece mask user.last_name
    → matches mask user ≡ true
IsPiece-matches mask user (inl p) = rw (IsPiece-contains mask user.first_name p) refl
IsPiece-matches mask user (inr p) = elim (Bool-cases (contains mask user.first_name)) [
  | inl e ↦ rw e refl
  | inr e ↦ rw (e, IsPiece-contains mask user.last_name p) refl
]

-- A user is in the result of a search exactly if it is the value of an entry and the mask stands in
-- its first or in its last name.
pub search_users_by_name-IsFound :
    (mask : Text) (m : Memory) (user : User)
    → (Listed user (search_users_by_name mask m) → IsFound mask m user)
      × (IsFound mask m user → Listed user (search_users_by_name mask m))
unfolding search_users_by_name
search_users_by_name-IsFound mask m user =
    let found = push_matching-keep_if (matches mask) m.users [] in
    (
      λ listed.
          let (there, passed) =
            keep_if-Listed (matches mask) user (values m.users)
              (subst (Listed user) found listed) in
          (there, matches-IsPiece mask user passed),
      λ is. subst (Listed user) (sym found) (
          Listed-keep_if (matches mask) user (values m.users) is.0
            (IsPiece-matches mask user is.1)),
    )
