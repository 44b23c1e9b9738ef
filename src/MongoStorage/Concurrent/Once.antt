-- ===== src/MongoStorage/Concurrent/Once.antt =====
-- Of the calls of JoinTrip for a login and a trip, at any time, one at most is told that it has joined.
use sd_hw.Prelude.{
  ℕ, ◌+◌, ◌==◌, ◌≡◌, refl, ap, ◌∙◌, subst, inl, inr, Bool, true, false, ◌&&◌, none, some, List, [],
  ◌∷◌, ◌++◌, Text, arith, text_eq, text_eq→eq, if◌then◌else◌, Bool-cases, Option-cases,
}
use sd_hw.Services.{Services}
use sd_hw.MongoStorage.{JoinTripResult, joined, already_joined}
use sd_hw.MongoStorage.Joins.{TripStore, holds, with_login, holds-with_login}
use sd_hw.MongoStorage.Concurrent.{
  look, change, after_look, after_change, System, begin, Step, finds, misses, changes, Reaches,
  here, later,
}

abbrev pub is_joined : JoinTripResult → Bool
is_joined joined = true
is_joined _ = false

abbrev pub bit : Bool → ℕ
bit b = if b then 1 else 0

-- How many calls for the trip and the login were told that it has joined now.
unfoldable pub joined_count : ℕ → Text → List (ℕ × (Text × JoinTripResult)) → ℕ
joined_count oid login [] = 0
joined_count oid login ((o, (l, answer)) ∷ answers) =
    bit (o == oid && (text_eq l login && is_joined answer)) + joined_count oid login answers

and_false : (a b : Bool) → (a && (b && false)) ≡ false
and_false true true = refl
and_false true false = refl
and_false false b = refl

holds-append_other :
    (login l : Text) (ps : List Text)
    → text_eq l login ≡ false
    → holds login (ps ++ l ∷ []) ≡ holds login ps
unfolding holds
holds-append_other login l [] ne = rw ne refl
holds-append_other login l (p ∷ ps) ne = elim (Bool-cases (text_eq p login)) [
  | inl e ↦ rw e refl
  | inr e ↦ rw e (holds-append_other login l ps ne)
]

holds-with_login_other :
    (login l : Text) (ps : List Text)
    → text_eq l login ≡ false
    → holds login (with_login l ps) ≡ holds login ps
unfolding with_login
holds-with_login_other login l ps ne = elim (Bool-cases (holds l ps)) [
  | inl e ↦ rw e refl
  | inr e ↦ rw e (holds-append_other login l ps ne)
]

module _ {sv : Services} (t : TripStore sv) (oid : ℕ) (login : Text) (known : Bool) where
  -- The trip is there; the login was a participant at first, or one call has been told that it has joined,
  -- exactly if it is a participant now.
  pub record Once (s : System t) : Type 0 where
    pub participants : List Text
    pub there : t.participants s.store oid ≡ some participants
    pub told : joined_count oid login s.answers + bit known ≡ bit (holds login participants)

  -- The first question changes nothing.
  look-keeps : (o : ℕ) (l : Text) (s : sv.mongo.State) → (look t o l s).1 ≡ s
  look-keeps o l s = elim (Option-cases (t.participants s o)) [
    | inl e ↦ ap (λ r. r.1) (t.find_missing o l s e)
    | inr (ps, e) ↦ elim (Bool-cases (holds l ps)) [
      | inl there ↦ let (doc, found) = t.find_participant o l ps s e there in ap (λ r. r.1) found
      | inr new ↦ ap (λ r. r.1) (t.find_other o l ps s e new)
    ]
  ]

  not_joined :
      (o : ℕ) (l : Text) (s : sv.mongo.State) (answer : JoinTripResult)
      → after_look (look t o l s).0 ≡ some answer
      → is_joined answer ≡ false
  unfolding after_look
  not_joined o l s answer h = elim (Option-cases (t.participants s o)) [
    | inl e ↦ let wrong : none ≡ some answer = (rw (t.find_missing o l s e) at h) in cc wrong
    | inr (ps, e) ↦ elim (Bool-cases (holds l ps)) [
      | inl there ↦
          let (doc, found) = t.find_participant o l ps s e there in
          let same : some already_joined ≡ some answer = (rw found at h) in
          let is : already_joined ≡ answer = cc same in subst (λ a. is_joined a ≡ false) is refl
      | inr new ↦
          let wrong : none ≡ some answer = (rw (t.find_other o l ps s e new) at h) in cc wrong
    ]
  ]

  -- The second question, of a call for this trip or for another one.
  changes-Once :
      (o : ℕ) (l : Text) (s : System t) (rest : List (ℕ × Text))
      → Once s
      → Once (record {
        store = (change t o l s.store).1;
        looked = rest;
        answers = (o, (l, after_change (change t o l s.store).0)) ∷ s.answers;
      })
  unfolding joined_count after_change
  changes-Once o l s rest h = elim (Bool-cases (o == oid)) [
    | inr away ↦ record {
      participants = h.participants;
      there = t.update_others o oid l s.store (λ same. ground arith) ∙ h.there;
      told = rw away (omega (arith, h.told));
    }
    | inl own ↦
        let same : o ≡ oid = ground arith in
        let at : t.participants s.store o ≡ some h.participants =
          ap (t.participants s.store) same ∙ h.there in
        let added = t.update_adds o l h.participants s.store at in
        let reply = t.update_reply o l h.participants s.store at in
        record {
          participants = with_login l h.participants;
          there =
              subst
                (λ n.
                  t.participants (change t o l s.store).1 n ≡ some (with_login l h.participants))
                same added;
          told = elim (Bool-cases (text_eq l login)) [
            | inr other ↦
                rw (own, other, holds-with_login_other login l h.participants other)
                  (omega (arith, h.told))
            | inl this ↦
                let name : l ≡ login = text_eq→eq l login this in
                let now : holds login (with_login l h.participants) ≡ true =
                  subst (λ n. holds n (with_login l h.participants) ≡ true) name
                    (holds-with_login l h.participants) in
                elim (Bool-cases (holds l h.participants)) [
                  | inl was ↦
                      let was_in : holds login h.participants ≡ true =
                        subst (λ n. holds n h.participants ≡ true) name was in
                      let before : joined_count oid login s.answers + bit known ≡ 1 =
                        (rw was_in at h.told) in
                      rw (own, this, reply, was, now) (omega (arith, before))
                  | inr new ↦
                      let was_out : holds login h.participants ≡ false =
                        subst (λ n. holds n h.participants ≡ false) name new in
                      let before : joined_count oid login s.answers + bit known ≡ 0 =
                        (rw was_out at h.told) in
                      rw (own, this, reply, new, now) (omega (arith, before))
                ]
          ];
        }
  ]

  Step-Once : (s v : System t) → Step t s v → Once s → Once v
  unfolding joined_count
  Step-Once s v (finds o l answer e) h = record {
    participants = h.participants;
    there = ap (λ m. t.participants m oid) (look-keeps o l s.store) ∙ h.there;
    told =
        rw (not_joined o l s.store answer e, and_false (o == oid) (text_eq l login))
          (omega (arith, h.told));
  }
  Step-Once s v (misses o l e) h = record {
    participants = h.participants;
    there = ap (λ m. t.participants m oid) (look-keeps o l s.store) ∙ h.there;
    told = h.told;
  }
  Step-Once s v (changes o l before after e) h = changes-Once o l s (before ++ after) h

  Reaches-Once : (s v : System t) → Reaches t s v → Once s → Once v
  Reaches-Once s v here h = h
  Reaches-Once s v (later u _ r step) h = Step-Once u v step (Reaches-Once s u r h)

-- With a MongoDB that answers (the laws of TripStore), in every interleaving of the questions that calls
-- of JoinTrip ask it, whatever the calls are: of the calls for a trip that is there and for a login, one
-- at most is told that the login has joined now, and none is if it was a participant before; one is
-- exactly if the login was none and is one now.
pub begin-Once :
    {sv : Services} (t : TripStore sv) (oid : ℕ) (login : Text) (ps : List Text)
    (s : sv.mongo.State) (v : System t)
    → t.participants s oid ≡ some ps
    → Reaches t (begin t s) v
    → Once t oid login (holds login ps) v
unfolding joined_count
begin-Once t oid login ps s v there reached =
    Reaches-Once t oid login (holds login ps) (begin t s) v reached
      (record { participants = ps; there = there; told = omega arith })
