-- ===== src/MemoryStorage/Maps.antt =====
-- The maps of the storage in memory, and what an operation leaves of them.
use sd_hw.Prelude.{
  ◌≡◌, ◌≢◌, refl, sym, ◌∙◌, inl, inr, Bool, true, false, none, some, [], ◌∷◌, Text, text_eq,
  text_eq→eq, text_eq_refl, Bool-cases, Option-cases,
}
use sd_hw.Models.{User}
use sd_hw.MemoryStorage.{Map, Memory, lookup, assign, add_user, get_user_by_login}

module _ {A : Type 0} where
  pub lookup-assign : (key : Text) (a : A) (m : Map A) → lookup key (assign key a m) ≡ some a
  unfolding lookup assign
  lookup-assign key a [] = rw (text_eq_refl key) refl
  lookup-assign key a ((k, b) ∷ rest) = elim (Bool-cases (text_eq k key)) [
    | inl e ↦ rw (e, e) refl
    | inr e ↦ rw (e, e) (lookup-assign key a rest)
  ]

  pub lookup-assign_other :
      (key other : Text) (a : A) (m : Map A)
      → other ≢ key
      → lookup other (assign key a m) ≡ lookup other m
  unfolding lookup assign
  lookup-assign_other key other a [] ne = elim (Bool-cases (text_eq key other)) [
    | inl e ↦ absurd (ne (sym (text_eq→eq key other e)))
    | inr e ↦ rw e refl
  ]
  lookup-assign_other key other a ((k, b) ∷ rest) ne = elim (Bool-cases (text_eq k key)) [
    | inl e ↦ elim (Bool-cases (text_eq k other)) [
      | inl o ↦ absurd (ne (sym (text_eq→eq k other o) ∙ text_eq→eq k key e))
      | inr o ↦ rw (e, o) refl
    ]
    | inr e ↦ elim (Bool-cases (text_eq k other)) [
      | inl o ↦ rw (e, o) refl
      | inr o ↦ rw (e, o) (lookup-assign_other key other a rest ne)
    ]
  ]

-- What `AddUser` promises for a user and the state before.
pub record Adds (user : User) (m : Memory) (r : Bool × Memory) : Type 0 where
  pub refused : (there : User) → get_user_by_login user.login m ≡ some there → r ≡ (false, m)
  pub added : get_user_by_login user.login m ≡ none → r.0 ≡ true
  pub found : get_user_by_login user.login m ≡ none → get_user_by_login user.login r.1 ≡ some user
  pub others :
      (login : Text) → login ≢ user.login → get_user_by_login login r.1 ≡ get_user_by_login login m

-- A user is added exactly if the login is free; then it is found under the login, and no other entry
-- changes. A login that is taken keeps its user.
pub add_user-Adds : (user : User) (m : Memory) → Adds user m (add_user user m)
unfolding add_user get_user_by_login
add_user-Adds user m = elim (Option-cases (lookup user.login m.users)) [
  | inl free ↦ rw free (record {
    refused = λ there e. cc;
    added = λ e. refl;
    found = λ e. lookup-assign user.login user m.users;
    others = λ login ne. lookup-assign_other user.login login user m.users ne;
  })
  | inr (there, taken) ↦ rw taken (record {
    refused = λ other e. refl;
    added = λ e. cc;
    found = λ e. cc;
    others = λ login ne. refl;
  })
]
