-- ===== src/Regex/Matches.antt =====
-- Which texts a regular expression matches.
use mathlib.Core.List.{append-nil}
use kong_coco.Prelude.{
  ◌≡◌, ◌⊎◌, refl, sym, ◌∙◌, ap, inl, inr, ℕ, Bool, true, false, [], ◌∷◌, ◌++◌, Text, ◌&&◌, ◌||◌,
}
use kong_coco.Regex.{
  accepts, Regex, never, empty, one, seq, alt, plus, nullable, option, only_if, behind,
}

-- One text with a property, or more of them in a row.
pub data Many (P : Text → Type 0) : Text → Type 0 where
  last : {s : Text} → P s → Many P s
  more : {s : Text} (u v : Text) → s ≡ u ++ v → P u → Many P v → Many P s

unfoldable pub Matches : Regex → Text → Type 0
Matches never s = ⊥
Matches empty s = s ≡ []
Matches (one k) s = (c : ℕ) × (s ≡ c ∷ []) × (accepts k c ≡ true)
Matches (seq r q) s = (u : Text) × (v : Text) × (s ≡ u ++ v) × Matches r u × Matches q v
Matches (alt r q) s = Matches r s ⊎ Matches q s
Matches (plus r) s = Many (Matches r) s

-- Inversion.
and-left : (a b : Bool) → (a && b) ≡ true → (a ≡ true) × (b ≡ true)
and-left true b h = (refl, h)
and-left false b h = cc

pub or-cases : (a b : Bool) → (a || b) ≡ true → (a ≡ true) ⊎ (b ≡ true)
or-cases true b h = inl refl
or-cases false b h = inr h

pub or-left : (a b : Bool) → a ≡ true → (a || b) ≡ true
or-left a b h = rw h refl

pub or-right : (a b : Bool) → b ≡ true → (a || b) ≡ true
or-right true b h = refl
or-right false b h = h

nil-parts : (u v : Text) → [] ≡ u ++ v → (u ≡ []) × (v ≡ [])
nil-parts [] v h = (refl, sym h)
nil-parts (c ∷ u) v h = cc

pub nullable-Matches : (r : Regex) → nullable r ≡ true → Matches r []
unfolding nullable Matches
nullable-Matches never h = cc
nullable-Matches empty h = refl
nullable-Matches (one k) h = cc
nullable-Matches (seq r q) h =
    let (p, t) = and-left (nullable r) (nullable q) h in
    ([], [], refl, nullable-Matches r p, nullable-Matches q t)
nullable-Matches (alt r q) h = elim (or-cases (nullable r) (nullable q) h) [
  | inl p ↦ inl (nullable-Matches r p)
  | inr p ↦ inr (nullable-Matches q p)
]
nullable-Matches (plus r) h = last (nullable-Matches r h)

Many-nil : (P : Text → Type 0) {s : Text} → s ≡ [] → Many P s → P []
Many-nil P e (last p) = rw e at p
Many-nil P e (more u v e' p m) = rw ((nil-parts u v (sym e ∙ e')).0) at p

pub Matches-nullable : (r : Regex) → Matches r [] → nullable r ≡ true
unfolding nullable Matches
Matches-nullable never m = absurd m
Matches-nullable empty m = refl
Matches-nullable (one k) (c, e, a) = cc
Matches-nullable (seq r q) (u, v, e, m, n) =
    let (p, t) = nil-parts u v e in
    rw (Matches-nullable r (rw p at m)) (Matches-nullable q (rw t at n))
Matches-nullable (alt r q) (inl m) = or-left _ _ (Matches-nullable r m)
Matches-nullable (alt r q) (inr m) = or-right _ _ (Matches-nullable q m)
Matches-nullable (plus r) m = Matches-nullable r (Many-nil (Matches r) refl m)

option-Matches : (b : Bool) {s : Text} → Matches (option b) s → (b ≡ true) × (s ≡ [])
unfolding Matches
option-Matches true m = (refl, m)
option-Matches false m = absurd m

only_if-Matches :
    (b : Bool) (r : Regex) (s : Text) → Matches (only_if b r) s → (b ≡ true) × Matches r s
unfolding Matches
only_if-Matches true r s m = (refl, m)
only_if-Matches false r s m = absurd m

-- What is left to match behind a character, with the character in front, matches.
pub behind-Matches : (c : ℕ) (r : Regex) (s : Text) → Matches (behind c r) s → Matches r (c ∷ s)
unfolding behind Matches
behind-Matches c never s m = absurd m
behind-Matches c empty s m = absurd m
behind-Matches c (one k) s m =
    let (a, e) = option-Matches (accepts k c) m in (c, ap (λ t. c ∷ t) e, a)
behind-Matches c (seq r q) s (inl (u, v, e, m, n)) =
    (c ∷ u, v, ap (λ t. c ∷ t) e, behind-Matches c r u m, n)
behind-Matches c (seq r q) s (inr m) =
    let (a, n) = only_if-Matches (nullable r) (behind c q) s m in
    ([], c ∷ s, refl, nullable-Matches r a, behind-Matches c q s n)
behind-Matches c (alt r q) s (inl m) = inl (behind-Matches c r s m)
behind-Matches c (alt r q) s (inr m) = inr (behind-Matches c q s m)
behind-Matches c (plus r) s (u, v, e, m, inl n) =
    last (behind-Matches c r s (rw (sym (e ∙ ap (λ t. u ++ t) n ∙ append-nil u)) at m))
behind-Matches c (plus r) s (u, v, e, m, inr n) =
    more (c ∷ u) v (ap (λ t. c ∷ t) e) (behind-Matches c r u m) n

Matches-only_if :
    (b : Bool) (r : Regex) (s : Text) → b ≡ true → Matches r s → Matches (only_if b r) s
Matches-only_if b r s e m = rw e m

-- The first part of a text with a first character is empty, or has that character.
cons-parts :
    (c : ℕ) (s u v : Text)
    → c ∷ s ≡ u ++ v
    → ((u ≡ []) × (v ≡ c ∷ s)) ⊎ ((u' : Text) × (u ≡ c ∷ u') × (s ≡ u' ++ v))
cons-parts c s [] v e = inl (refl, sym e)
cons-parts c s (b ∷ u) v e = inr (u, cc, cc)

first-of : (b c : ℕ) (s : Text) → c ∷ s ≡ b ∷ [] → b ≡ c
first-of b c s e = cc

rest-of : (b c : ℕ) (s : Text) → c ∷ s ≡ b ∷ [] → s ≡ []
rest-of b c s e = cc

Matches-option : (b : Bool) (s : Text) → b ≡ true → s ≡ [] → Matches (option b) s
unfolding Matches
Matches-option b s e p = rw e p

-- Of a row of texts, the first that is not empty begins with the first character.
Many-behind :
    (c : ℕ) (r : Regex) (s : Text) {t : Text}
    → ((u : Text) → Matches r (c ∷ u) → Matches (behind c r) u)
    → t ≡ c ∷ s
    → Many (Matches r) t
    → Matches (behind c (plus r)) s
unfolding behind Matches
Many-behind c r s h e (last p) = (s, [], sym (append-nil s), h s (rw e at p), inl refl)
Many-behind c r s h e (more u v e' p m) = elim (cons-parts c s u v (sym e ∙ e')) [
  | inl (_, t) ↦ Many-behind c r s h t m
  | inr (u', p', t) ↦ (u', v, t, h u' (rw p' at p), inr m)
]

pub Matches-behind : (c : ℕ) (r : Regex) (s : Text) → Matches r (c ∷ s) → Matches (behind c r) s
unfolding behind Matches
Matches-behind c never s m = absurd m
Matches-behind c empty s m = cc
Matches-behind c (one k) s (b, e, a) =
    Matches-option (accepts k c) s (rw (first-of b c s e) at a) (rest-of b c s e)
Matches-behind c (seq r q) s (u, v, e, m, n) = elim (cons-parts c s u v e) [
  | inl (p, t) ↦ inr (
      Matches-only_if (nullable r) (behind c q) s (Matches-nullable r (rw p at m))
        (Matches-behind c q s (rw t at n)))
  | inr (u', p, t) ↦ inl (u', v, t, Matches-behind c r u' (rw p at m), n)
]
Matches-behind c (alt r q) s (inl m) = inl (Matches-behind c r s m)
Matches-behind c (alt r q) s (inr m) = inr (Matches-behind c q s m)
Matches-behind c (plus r) s m = Many-behind c r s (λ u. Matches-behind c r u) refl m
