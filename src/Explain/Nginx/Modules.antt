-- ===== src/Explain/Nginx/Modules.antt =====
-- What `re.findall` finds of nginx's modules in a configure line.
use mathlib.Core.Path.{subst}
use kong_coco.Prelude.{
  ℕ, zero, suc, ◌-◌, ◌≡◌, ◌⊎◌, refl, ◌∙◌, ap, inl, inr, false, Option, none, some, List, [], ◌∷◌,
  ◌++◌, Text, codes, list_eq, nat_eq, ◌==◌, All, Bool-cases, Option-cases, nat_beq_iff,
}
use kong_coco.Explain.Nginx.{after_prefix, up_to_space, named, module_at, find_modules}

some-injective : {A : Type 0} {a b : A} → some a ≡ some b → a ≡ b
some-injective h = cc

after_prefix-append : (p s : Text) {r : Text} → after_prefix p s ≡ some r → s ≡ p ++ r
unfolding after_prefix
after_prefix-append [] s h = some-injective h
after_prefix-append (b ∷ p) [] h = cc
after_prefix-append (b ∷ p) (c ∷ s) h = elim (Bool-cases (b == c)) [
  | inl t ↦
      rw ((nat_beq_iff b c).0 t)
        (ap (λ r. c ∷ r) (after_prefix-append p s (rw (t, after_prefix) at h)))
  | inr t ↦ cc (rw (t, after_prefix) at h)
]

-- Neither a space nor a line feed.
abbrev pub IsInside : ℕ → Type 0
IsInside c = ((c == b' ') ≡ false) × ((c == 10) ≡ false)

up_to_space-append :
    (s : Text) {m : Text}
    → up_to_space s ≡ some m
    → (rest : Text) × (s ≡ m ++ b' ' ∷ rest) × All IsInside m
unfolding up_to_space
up_to_space-append [] h = cc
up_to_space-append (c ∷ s) h = elim (Bool-cases (c == b' ')) [
  | inl t ↦
      rw (← some-injective (rw (t, up_to_space) at h))
        (s, ap (λ b. b ∷ s) ((nat_beq_iff c _).0 t), tt)
  | inr t ↦ elim (Bool-cases (c == 10)) [
    | inl u ↦ cc (rw (t, u, up_to_space) at h)
    | inr u ↦ elim (Option-cases (up_to_space s)) [
      | inl n ↦ cc (rw (t, u, n, up_to_space) at h)
      | inr (m, e) ↦
          let (rest, p, a) = up_to_space-append s e in
          rw (← some-injective (rw (t, u, e, up_to_space) at h))
            (rest, ap (λ l. c ∷ l) p, ((t, u), a))
    ]
  ]
]

-- `m`, and a space behind it, is what is left.
abbrev Ended : Text → Option Text → Type 0
Ended m o = (rest : Text) × (o ≡ some (m ++ b' ' ∷ rest)) × All IsInside m

named-Ended : (k : ℕ) (o : Option Text) {m : Text} {n : ℕ} → named k o ≡ some (m, n) → Ended m o
unfolding named
named-Ended k none h = cc
named-Ended k (some s) h = elim (Option-cases (up_to_space s)) [
  | inl n ↦ cc (rw (n, named) at h)
  | inr (m, e) ↦
      let (rest, p, a) = up_to_space-append s e in
      subst (λ t. Ended t (some s)) (ap (λ r. r.0) (some-injective (rw (e, named) at h)))
        (rest, ap some p, a)
]

-- The text starts with the option that adds the module `m`, on one line, and a space behind it.
pub record Names (m s : Text) : Type 0 where
  pub rest : Text
  pub option : Text
  pub is_option : (option ≡ codes "add-dynamic-module=") ⊎ (option ≡ codes "add-module=")
  pub starts : s ≡ option ++ (m ++ b' ' ∷ rest)
  pub inside : All IsInside m

Names-after_prefix :
    (p s : Text) {m : Text}
    → (p ≡ codes "add-dynamic-module=") ⊎ (p ≡ codes "add-module=")
    → Ended m (after_prefix p s)
    → Names m s
Names-after_prefix p s o (rest, e, a) = record {
  rest = rest;
  option = p;
  is_option = o;
  starts = after_prefix-append p s e;
  inside = a;
}

module_at-Names : (s : Text) {m : Text} {n : ℕ} → module_at s ≡ some (m, n) → Names m s
unfolding module_at
module_at-Names s h = elim (Option-cases (after_prefix (codes "add-dynamic-module=") s)) [
  | inr (r, e) ↦
      let (rest, p, a) = named-Ended 19 (some r) (rw (e, module_at) at h) in
      Names-after_prefix (codes "add-dynamic-module=") s (inl refl) (rest, e ∙ p, a)
  | inl n ↦
      Names-after_prefix (codes "add-module=") s (inr refl)
        (named-Ended 11 (after_prefix (codes "add-module=") s) (rw (n, module_at) at h))
]

-- Somewhere in the text an option names the module.
abbrev pub Within : Text → Text → Type 0
Within m s = (pre : Text) × (s' : Text) × (s ≡ pre ++ s') × Names m s'

later : (c : ℕ) (s m : Text) → Within m s → Within m (c ∷ s)
later c s m (pre, s', e, n) = (c ∷ pre, s', ap (λ t. c ∷ t) e, n)

All-later :
    (c : ℕ) (s : Text) (ms : List Text) → All (λ m. Within m s) ms → All (λ m. Within m (c ∷ s)) ms
All-later c s [] a = tt
All-later c s (m ∷ ms) (w, a) = (later c s m w, All-later c s ms a)

-- Every module that findall finds in a text is named there by an option, add-module or add-
-- dynamic-module, and ends at the next space, on one line.
pub find_modules-Within : (s : Text) (skip : ℕ) → All (λ m. Within m s) (find_modules skip s)
unfolding find_modules
find_modules-Within [] skip = tt
find_modules-Within (c ∷ s) (suc skip) =
    All-later c s (find_modules skip s) (find_modules-Within s skip)
find_modules-Within (c ∷ s) zero = elim (Option-cases (module_at (c ∷ s))) [
  | inl n ↦ rw (n, find_modules) (All-later c s (find_modules zero s) (find_modules-Within s zero))
  | inr ((m, n), e) ↦
      rw (e, find_modules)
        (
          ([], c ∷ s, refl, module_at-Names (c ∷ s) e),
          All-later c s (find_modules (n - 1) s) (find_modules-Within s (n - 1)),
        )
]
