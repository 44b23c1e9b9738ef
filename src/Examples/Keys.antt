-- ===== src/Examples/Keys.antt =====
-- A Redis of texts and counters, with its commands as the script relies on them.
use sd_hw.Prelude.{
  ℕ, ◌+◌, ◌≡◌, ◌≢◌, refl, Bool, true, false, Option, none, some, List, [], ◌∷◌, Text, text_eq,
  text_eq→eq, text_eq_refl, if◌then◌else◌, Bool-cases, inl, inr,
}
use sd_hw.Prelude.Int.{ℤ, pos}
use sd_hw.Services.{Redis}
use sd_hw.Services.Results.{Result, ok}
use sd_hw.RateLimiter.Commands.{Reads, Sends, Counters}

pub record Keys : Type 0 where
  pub texts : Text → Option Text
  pub counter : Text → ℕ
  pub expires : Text → Bool

abbrev pub update : {A : Type 0} → Text → A → (Text → A) → Text → A
update k a f j = if text_eq j k then a else f j

abbrev pub keys : Redis
keys = record {
  State = Keys;
  get = λ k s. (ok (s.texts k), s);
  set = λ k v n s. (ok tt, record s { texts = update k (some v) s.texts });
  del = λ k s. (ok tt, record s { texts = update k none s.texts });
  incr = λ k s.
      (ok (pos (s.counter k + 1)), record s { counter = update k (s.counter k + 1) s.counter });
  expire = λ k n s. (ok tt, record s { expires = update k true s.expires });
  ttl = λ k s. (ok (pos (if s.expires k then 60 else 0)), s);
  Reply = List ℤ;
  Item = ℤ;
  get_array = ok;
  get_int = ok;
  eval = λ script s. script s;
}

abbrev pub no_keys : Keys
no_keys = record { texts = λ k. none; counter = λ k. 0; expires = λ k. false }

pub update_self : {A : Type 0} (k : Text) (a : A) (f : Text → A) → update k a f k ≡ a
update_self k a f = rw (text_eq_refl k)

pub update_other : {A : Type 0} (k j : Text) (a : A) (f : Text → A) → j ≢ k → update k a f j ≡ f j
update_other k j a f h = elim (Bool-cases (text_eq j k)) [
  | inl e ↦ absurd (h (text_eq→eq j k e))
  | inr e ↦ rw e
]

Reads-self : (l : List ℤ) → Reads keys l l
Reads-self [] = tt
Reads-self (n ∷ l) = (refl, Reads-self l)

pub eval_keys :
    (script : Keys → Result (List ℤ) × Keys) (s : Keys) (l : List ℤ)
    → (script s).0 ≡ ok l
    → Sends keys l (keys.eval script s).0 × ((keys.eval script s).1 ≡ (script s).1)
eval_keys script s l e =
    (record { reply = l; items = l; answered = e; listed = refl; reads = Reads-self l }, refl)

abbrev pub keys_count : Counters keys
keys_count = record {
  counter = λ s. s.counter;
  expires = λ s. s.expires;
  incr_reply = λ k s. refl;
  incr_counter = λ k s. update_self k (s.counter k + 1) s.counter;
  incr_other = λ k j s h. update_other k j (s.counter k + 1) s.counter h;
  incr_expires = λ k j s. refl;
  expire_reply = λ k n s. refl;
  expire_counter = λ k j n s. refl;
  expire_sets = λ k n s h. update_self k true s.expires;
  expire_other = λ k j n s h. update_other k j true s.expires h;
  ttl_reply = λ k s. (_, refl);
  eval_runs = eval_keys;
}
