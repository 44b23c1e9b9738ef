-- ===== src/RoutePoints/Pieces.antt =====
-- The delimiters in the normalized text and in the pieces that it is cut into.
use sd_hw.Prelude.{
  ℕ, ◌≡◌, ◌⊎◌, refl, ap, inl, inr, true, false, List, [], ◌∷◌, ◌++◌, map, arith, Text, codes,
  starts_with, ◌==◌, if◌then◌else◌, All, Bool-cases,
}
use sd_hw.RoutePoints.{bar}
use sd_hw.RoutePoints.Spec.{replace_all, onto_head, split_on, normalize}

abbrev pub arrow : Text
arrow = codes "->"

-- `->` stands nowhere in the text.
abbrev pub NoArrow : Text → Type 0
NoArrow [] = Unit {0}
NoArrow (c ∷ s) = (starts_with arrow (c ∷ s) ≡ false) × NoArrow s

abbrev pub Lacks : ℕ → Text → Type 0
Lacks b = All (λ c. (c == b) ≡ false)

-- A text with no delimiter of a route, neither one of the program's three nor the bar.
pub record IsPlain (t : Text) : Type 0 where
  pub arrow : NoArrow t
  pub comma : Lacks b',' t
  pub semicolon : Lacks b';' t
  pub bar : Lacks b'|' t

-- What one pass for a delimiter of one byte does to each byte.
abbrev pub swap : ℕ → ℕ → ℕ
swap b c = if c == b then bar else c

pub replace_all_byte : (b : ℕ) (s : Text) → replace_all (b ∷ []) 0 s ≡ map (swap b) s
unfolding replace_all starts_with
replace_all_byte b [] = refl
replace_all_byte b (c ∷ s) = ground (arith, replace_all_byte b s)

NoArrow-replace_all : (s : Text) → NoArrow (replace_all arrow 0 s)
unfolding replace_all starts_with
NoArrow-replace_all [] = tt
NoArrow-replace_all (c ∷ []) = ground arith
NoArrow-replace_all (c ∷ d ∷ s) = ground (arith, NoArrow-replace_all s, NoArrow-replace_all (d ∷ s))

NoArrow-swap : (b : ℕ) (s : Text) → NoArrow s → NoArrow (map (swap b) s)
unfolding starts_with
NoArrow-swap b [] h = tt
NoArrow-swap b (c ∷ []) h = ground arith
NoArrow-swap b (c ∷ d ∷ s) h = (ground arith, NoArrow-swap b (d ∷ s) h.1)

Lacks-swap_self : (b : ℕ) (s : Text) → (bar == b) ≡ false → Lacks b (map (swap b) s)
Lacks-swap_self b [] h = tt
Lacks-swap_self b (c ∷ s) h = (ground arith, Lacks-swap_self b s h)

Lacks-swap : (b b' : ℕ) (s : Text) → (bar == b) ≡ false → Lacks b s → Lacks b (map (swap b') s)
Lacks-swap b b' [] h l = tt
Lacks-swap b b' (c ∷ s) h l = (ground arith, Lacks-swap b b' s h l.1)

NoArrow_front : (s t : Text) → NoArrow (s ++ t) → NoArrow s
unfolding starts_with
NoArrow_front [] t h = tt
NoArrow_front (c ∷ []) t h = ground arith
NoArrow_front (c ∷ d ∷ s) t h = (h.0, NoArrow_front (d ∷ s) t h.1)

NoArrow_back : (s t : Text) → NoArrow (s ++ t) → NoArrow t
NoArrow_back [] t h = h
NoArrow_back (c ∷ s) t h = NoArrow_back s t h.1

Lacks_front : (b : ℕ) (s t : Text) → Lacks b (s ++ t) → Lacks b s
Lacks_front b [] t h = tt
Lacks_front b (c ∷ s) t h = (h.0, Lacks_front b s t h.1)

Lacks_back : (b : ℕ) (s t : Text) → Lacks b (s ++ t) → Lacks b t
Lacks_back b [] t h = h
Lacks_back b (c ∷ s) t h = Lacks_back b s t h.1

pub IsPlain-piece : (a t b : Text) → IsPlain (a ++ (t ++ b)) → IsPlain t
IsPlain-piece a t b h = record {
  arrow = NoArrow_front t b (NoArrow_back a (t ++ b) h.arrow);
  comma = lacks b',' h.comma;
  semicolon = lacks b';' h.semicolon;
  bar = lacks b'|' h.bar;
}
  where
    lacks : (c : ℕ) → Lacks c (a ++ (t ++ b)) → Lacks c t
    lacks c h = Lacks_front c t b (Lacks_back c a (t ++ b) h)

-- The normalized text may hold bars, and none of the program's three delimiters.
record IsNormal (t : Text) : Type 0 where
  arrow : NoArrow t
  comma : Lacks b',' t
  semicolon : Lacks b';' t

normalize-swap :
    (raw : Text) → normalize raw ≡ map (swap b';') (map (swap b',') (replace_all arrow 0 raw))
unfolding normalize
normalize-swap raw = rw (replace_all_byte b',' (replace_all arrow 0 raw)) (replace_all_byte b';' _)

normalize-IsNormal : (raw : Text) → IsNormal (normalize raw)
normalize-IsNormal raw =
    let one = replace_all arrow 0 raw in
    let two = map (swap b',') one in
    rw normalize-swap (record {
      arrow = NoArrow-swap b';' two (NoArrow-swap b',' one (NoArrow-replace_all raw));
      comma = Lacks-swap b',' b';' two refl (Lacks-swap_self b',' one refl);
      semicolon = Lacks-swap_self b';' two refl;
    })

-- The first piece is the front of the text up to a bar; the others are plain as well.
record Cut (s : Text) (pieces : List Text) : Type 0 where
  first : Text
  rest : List Text
  split : pieces ≡ first ∷ rest
  behind : Text
  front : s ≡ first ++ behind
  no_bar : Lacks b'|' first
  others : All IsPlain rest

IsPlain-first : {s : Text} {pieces : List Text} (c : Cut s pieces) → IsNormal s → IsPlain c.first
IsPlain-first c h = record {
  arrow = NoArrow_front c.first c.behind (rw c.front at h.arrow);
  comma = Lacks_front b',' c.first c.behind (rw c.front at h.comma);
  semicolon = Lacks_front b';' c.first c.behind (rw c.front at h.semicolon);
  bar = c.no_bar;
}

split_on-Cut : (s : Text) → IsNormal s → Cut s (split_on bar s)
unfolding split_on
split_on-Cut [] h = record {
  first = [];
  rest = [];
  split = refl;
  behind = [];
  front = refl;
  no_bar = tt;
  others = tt;
}
split_on-Cut (c ∷ s) h = by_test (Bool-cases (c == bar)) (split_on-Cut s tail_h)
  where
    tail_h : IsNormal s
    tail_h = record { arrow = h.arrow.1; comma = h.comma.1; semicolon = h.semicolon.1 }

    by_test :
        (((c == bar) ≡ true) ⊎ ((c == bar) ≡ false))
        → Cut s (split_on bar s)
        → Cut (c ∷ s) (if c == bar then [] ∷ split_on bar s else onto_head c (split_on bar s))
    by_test (inl e) cut = rw e (record {
      first = [];
      rest = split_on bar s;
      split = refl;
      behind = c ∷ s;
      front = refl;
      no_bar = tt;
      others = rw cut.split (IsPlain-first cut tail_h, cut.others);
    })
    by_test (inr e) cut =
        rw (e, cut.split)
          (record {
            first = c ∷ cut.first;
            rest = cut.rest;
            split = refl;
            behind = cut.behind;
            front = ap (◌∷◌ c) cut.front;
            no_bar = (e, cut.no_bar);
            others = cut.others;
          })

-- Every piece that the normalized text is cut into is plain.
pub pieces-IsPlain : (raw : Text) → All IsPlain (split_on bar (normalize raw))
pieces-IsPlain raw =
    let normal = normalize-IsNormal raw in
    let cut = split_on-Cut (normalize raw) normal in
    rw cut.split (IsPlain-first cut normal, cut.others)
