-- ===== src/MongoStorage/Participants.antt =====
-- The participants of a trip over all joins.
use sd_hw.Prelude.{
  ℕ, ◌==◌, ◌≡◌, refl, sym, ap, ◌∙◌, subst, ◌⊎◌, inl, inr, true, false, Option, none, some, List, [],
  ◌∷◌, ◌++◌, Text, text_eq, text_eq→eq, text_eq_refl, Bool-cases, Option-cases, arith,
}
use sd_hw.Services.{Services}
use sd_hw.App.{World}
use sd_hw.MongoStorage.{join_trip}
use sd_hw.MongoStorage.Joins.{
  TripStore, Joins, holds, with_login, joining, join_trip-Joins, join_trip-invalid,
}

-- No login twice.
pub data Distinct : List Text → Type 0 where
  nobody : Distinct []
  one_more : (p : Text) (ps : List Text) → holds p ps ≡ false → Distinct ps → Distinct (p ∷ ps)

holds-add :
    (p login : Text) (ps : List Text)
    → holds p ps ≡ false
    → text_eq login p ≡ false
    → holds p (ps ++ login ∷ []) ≡ false
unfolding holds
holds-add p login [] h ne = rw ne refl
holds-add p login (q ∷ ps) h ne = elim (Bool-cases (text_eq q p)) [
  | inl e ↦ cc (rw e at h)
  | inr e ↦ rw e (holds-add p login ps (rw e at h) ne)
]

differs : (p login : Text) → text_eq p login ≡ false → text_eq login p ≡ false
differs p login e = elim (Bool-cases (text_eq login p)) [
  | inl same ↦ cc (text_eq_refl p, ap (text_eq p) (text_eq→eq login p same))
  | inr ne ↦ ne
]

Distinct-add :
    (login : Text) (ps : List Text)
    → holds login ps ≡ false
    → Distinct ps
    → Distinct (ps ++ login ∷ [])
unfolding holds
Distinct-add login [] h nobody = one_more login [] refl nobody
Distinct-add login (p ∷ ps) h (one_more _ _ q d) = elim (Bool-cases (text_eq p login)) [
  | inl e ↦ cc (rw e at h)
  | inr e ↦
      one_more p (ps ++ login ∷ []) (holds-add p login ps q (differs p login e))
        (Distinct-add login ps (rw e at h) d)
]

Distinct-with_login : (login : Text) (ps : List Text) → Distinct ps → Distinct (with_login login ps)
unfolding with_login
Distinct-with_login login ps d = elim (Bool-cases (holds login ps)) [
  | inl e ↦ rw e d
  | inr e ↦ rw e (Distinct-add login ps e d)
]

module _ {sv : Services} (t : TripStore sv) where
  pub record AllDistinct (s : sv.mongo.State) : Type 0 where
    pub at : (oid : ℕ) (ps : List Text) → t.participants s oid ≡ some ps → Distinct ps

  joining-Distinct :
      (login : Text) (o : Option (List Text)) (ps : List Text)
      → ((qs : List Text) → o ≡ some qs → Distinct qs)
      → joining login o ≡ some ps
      → Distinct ps
  unfolding joining
  joining-Distinct login none ps h e = cc
  joining-Distinct login (some qs) ps h e =
      subst Distinct (cc) (Distinct-with_login login qs (h qs refl))

-- With a MongoDB that answers (the laws of TripStore), if no trip has a participant twice, this is still
-- so after any join.
pub join_trip-AllDistinct :
    {sv : Services} (t : TripStore sv) (id login : Text) (w : World sv)
    → AllDistinct t w.mongo
    → AllDistinct t (join_trip id login w).1.mongo
join_trip-AllDistinct {sv} t id login w h = elim (Option-cases (sv.bson.parse_oid id)) [
  | inl e ↦ rw (join_trip-invalid t id login w e) h
  | inr (oid, e) ↦
      let j = join_trip-Joins t id login oid w e in
      record { at = λ o ps there. by_trip j o ps there (Bool-cases (o == oid)) }
]
  where
    by_trip :
        {oid : ℕ}
        → Joins t oid login w (join_trip id login w)
        → (o : ℕ) (ps : List Text) → t.participants (join_trip id login w).1.mongo o ≡ some ps
        → (((o == oid) ≡ true) ⊎ ((o == oid) ≡ false))
        → Distinct ps
    by_trip {oid} j o ps there (inl same) =
        let e : o ≡ oid = ground arith in
        joining-Distinct t login (t.participants w.mongo oid) ps (h.at oid)
          (sym j.trip ∙ ap (t.participants (join_trip id login w).1.mongo) (sym e) ∙ there)
    by_trip {oid} j o ps there (inr other) = h.at o ps (sym (j.others o (ground arith)) ∙ there)
