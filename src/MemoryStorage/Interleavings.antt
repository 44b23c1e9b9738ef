-- ===== src/MemoryStorage/Interleavings.antt =====
-- Calls of the storage in memory from many threads. Every block under a lock is one step; a call of
-- `LoginUser` is two, and other calls may come between them.
use sd_hw.Prelude.{
  ◌≡◌, refl, sym, ap, ◌∙◌, subst, inl, inr, true, false, some, List, [], ◌∷◌, ◌++◌, Text, text_eq,
  text_eq→eq, text_eq_refl, Bool-cases, Option-cases, All,
}
use sd_hw.Models.{User, Route, Trip}
use sd_hw.MemoryStorage.{
  Memory, check_password, store_token, get_login_by_token, add_user, get_user_by_login, add_route,
  add_trip, add_user_to_trip, lookup, assign,
}
use sd_hw.MemoryStorage.Maps.{lookup-assign, lookup-assign_other, add_user-Adds}

-- The memory, and the logins of the calls of `LoginUser` that are between their two blocks.
pub record System : Type 0 where
  pub memory : Memory
  pub checked : List Text

abbrev pub no_data : System
no_data = record {
  memory = record { users = []; tokens = []; routes = []; trips = [] };
  checked = [];
}

pub data Step (s : System) : System → Type 0 where
  checks :
      (login password : Text)
      → check_password login password s.memory ≡ true
      → Step s (record s { checked = login ∷ s.checked })
  stores :
      (token login : Text) (before after : List Text)
      → s.checked ≡ before ++ login ∷ after
      → Step s (record { memory = store_token token login s.memory; checked = before ++ after })
  adds_user : (user : User) → Step s (record s { memory = (add_user user s.memory).1 })
  adds_route :
      (id : Text) (route : Route) → Step s (record s { memory = add_route id route s.memory })
  adds_trip : (id : Text) (trip : Trip) → Step s (record s { memory = add_trip id trip s.memory })
  joins : (id login : Text) → Step s (record s { memory = (add_user_to_trip id login s.memory).1 })

pub data Reaches (s : System) : System → Type 0 where
  here : Reaches s s
  later : (u v : System) → Reaches s u → Step u v → Reaches s v

-- The login has a user.
abbrev pub Known : Memory → Text → Type 0
Known m login = (user : User) × (get_user_by_login login m ≡ some user)

pub record Owned (s : System) : Type 0 where
  pub tokens :
      (token login : Text) → get_login_by_token token s.memory ≡ some login → Known s.memory login
  pub checked : All (Known s.memory) s.checked

check_password-Known :
    (login password : Text) (m : Memory) → check_password login password m ≡ true → Known m login
unfolding check_password get_user_by_login
check_password-Known login password m h = elim (Option-cases (lookup login m.users)) [
  | inl e ↦ let wrong : false ≡ true = (rw e at h) in cc wrong
  | inr (user, e) ↦ (user, e)
]

Known-add_user :
    (user : User) (m : Memory) (login : Text) → Known m login → Known (add_user user m).1 login
Known-add_user user m login (there, e) =
    let adds = add_user-Adds user m in
    elim (Bool-cases (text_eq login user.login)) [
      | inl own ↦ (
        there,
        ap (λ r. get_user_by_login login r.1)
              (adds.refused there
                (ap (λ l. get_user_by_login l m) (sym (text_eq→eq login user.login own)) ∙ e))
            ∙ e,
      )
      | inr other ↦ (there, adds.others login (λ same. cc (text_eq_refl login)) ∙ e)
    ]

All-map : {P Q : Text → Type 0} → ((l : Text) → P l → Q l) → (ls : List Text) → All P ls → All Q ls
All-map f [] h = tt
All-map f (l ∷ ls) h = (f l h.0, All-map f ls h.1)

All-split :
    (P : Text → Type 0) (before after : List Text) (l : Text)
    → All P (before ++ l ∷ after)
    → P l × All P (before ++ after)
All-split P [] after l h = h
All-split P (b ∷ before) after l h =
    let (p, rest) = All-split P before after l h.1 in (p, (h.0, rest))

add_user-tokens : (user : User) (m : Memory) → (add_user user m).1.tokens ≡ m.tokens
unfolding add_user
add_user-tokens user m = elim (Option-cases (lookup user.login m.users)) [
  | inl e ↦ rw e refl
  | inr (there, e) ↦ rw e refl
]

stored-Known :
    (m : Memory) (token login : Text)
    → Known m login
    → ((t l : Text) → lookup t m.tokens ≡ some l → Known m l)
    → (t l : Text) → lookup t (assign token login m.tokens) ≡ some l
    → Known m l
stored-Known m token login own known t l e = elim (Bool-cases (text_eq t token)) [
  | inl same ↦
      let stored : some login ≡ some l =
        sym (lookup-assign token login m.tokens)
        ∙ ap (λ k. lookup k (assign token login m.tokens)) (sym (text_eq→eq t token same))
        ∙ e in
      subst (Known m) (cc stored) own
  | inr other ↦
      known t l
        (sym (lookup-assign_other token t login m.tokens (λ same. cc (text_eq_refl token))) ∙ e)
]

joins-Owned :
    (id login : Text) (s : System)
    → Owned s
    → Owned (record s { memory = (add_user_to_trip id login s.memory).1 })
unfolding add_user_to_trip get_login_by_token get_user_by_login
joins-Owned id login s o = elim (Option-cases (lookup id s.memory.trips)) [
  | inl e ↦ rw e o
  | inr (trip, e) ↦ rw e (record { tokens = o.tokens; checked = o.checked })
]

step-Owned : (s u : System) → Step s u → Owned s → Owned u
unfolding store_token get_login_by_token get_user_by_login add_route add_trip
step-Owned s _ (checks login password h) o = record {
  tokens = o.tokens;
  checked = (check_password-Known login password s.memory h, o.checked);
}
step-Owned s _ (stores token login before after e) o =
    let (own, rest) =
      All-split (Known s.memory) before after login (subst (All (Known s.memory)) e o.checked) in
    record { tokens = stored-Known s.memory token login own o.tokens; checked = rest }
step-Owned s _ (adds_user user) o = record {
  tokens = λ token login e.
      Known-add_user user s.memory login
        (o.tokens token login (ap (lookup token) (sym (add_user-tokens user s.memory)) ∙ e));
  checked = All-map (Known-add_user user s.memory) s.checked o.checked;
}
step-Owned s _ (adds_route id route) o = record { tokens = o.tokens; checked = o.checked }
step-Owned s _ (adds_trip id trip) o = record { tokens = o.tokens; checked = o.checked }
step-Owned s _ (joins id login) o = joins-Owned id login s o

reached-Owned : (s u : System) → Reaches s u → Owned s → Owned u
reached-Owned s _ here o = o
reached-Owned s u (later v _ r step) o = step-Owned v u step (reached-Owned s v r o)

-- In every interleaving of calls from the empty storage, each token that is stored is that of a login
-- with a user, although the token is stored after the lock on the users was given back.
pub no_data-Owned : (s : System) → Reaches no_data s → Owned s
unfolding get_login_by_token lookup
no_data-Owned s r =
    reached-Owned no_data s r (record { tokens = λ token login e. cc; checked = tt })
