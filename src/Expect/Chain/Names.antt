-- ===== src/Expect/Chain/Names.antt =====
-- How names are read: the verbs with their endings, the two rpath attributes, and slashes.
use mathlib.Core.Path.{subst}
use kong_coco.Prelude.{
  ℕ, map, sym, ◌≤◌, ◌≡◌, ◌≢◌, refl, ap, inl, inr, ◌⊎◌, true, false, none, some, List, [],
}
use kong_coco.Prelude.{
  ◌∷◌, ◌++◌, Text, codes, arith, Bool-cases, length, list_eq, nat_eq, list_beq, list_beq_iff, ◌||◌,
  contains,
}
use kong_coco.Env.{Env}
use kong_coco.Expect.State.{Chain}
use kong_coco.Expect.Chain.{verb_of, getattr, set_attribute, drop_slash, glob_match_ignore_slash}

-- What `(?:s|es)?` matches.
abbrev pub IsEnding : Text → Type 0
IsEnding e = (e ≡ []) ⊎ (e ≡ codes "s") ⊎ (e ≡ codes "es")

IsEnding-of_beq :
    (s : Text) → (list_beq s (codes "s") || list_beq s (codes "es")) ≡ true → IsEnding s
IsEnding-of_beq s h = ground (arith, list_beq_iff s (codes "s"), list_beq_iff s (codes "es"))

beq-of_IsEnding :
    (s : Text) → IsEnding s → s ≢ [] → (list_beq s (codes "s") || list_beq s (codes "es")) ≡ true
beq-of_IsEnding s h n = ground (arith, list_beq_iff s (codes "s"), list_beq_iff s (codes "es"))

tail_eq : {a b : ℕ} {s t : Text} → a ∷ s ≡ b ∷ t → s ≡ t
tail_eq h = cc

verb_of-append : (name : Text) → (e : Text) × IsEnding e × (name ≡ verb_of name ++ e)
unfolding verb_of
verb_of-append [] = ([], inl refl, refl)
verb_of-append (c ∷ s) =
    elim (Bool-cases (list_beq (c ∷ s) (codes "s") || list_beq (c ∷ s) (codes "es"))) [
      | inl t ↦ (c ∷ s, IsEnding-of_beq (c ∷ s) t, rw t refl)
      | inr t ↦ let (e, h, p) = verb_of-append s in (e, h, rw t (ap (λ r. c ∷ r) p))
    ]

verb_of_shortest :
    (name verb e : Text) → IsEnding e → name ≡ verb ++ e → length (verb_of name) ≤ length verb
unfolding verb_of
verb_of_shortest [] verb e h p = omega arith
verb_of_shortest (c ∷ s) [] e h p =
    rw (beq-of_IsEnding (c ∷ s) (subst IsEnding (sym p) h) (λ q. cc)) (omega arith)
verb_of_shortest (c ∷ s) (b ∷ verb) e h p =
    elim (Bool-cases (list_beq (c ∷ s) (codes "s") || list_beq (c ∷ s) (codes "es"))) [
      | inl t ↦ rw t (omega arith)
      | inr t ↦ rw t (omega (arith, verb_of_shortest s verb e h (tail_eq p)))
    ]

-- The verb of a name is the name without an ending s or es or none, and no ending leaves less.
pub verb_of_lem :
    (name : Text)
    → (e : Text) × IsEnding e
      × (name ≡ verb_of name ++ e)
      × ((verb e' : Text) → IsEnding e' → name ≡ verb ++ e' → length (verb_of name) ≤ length verb)
verb_of_lem name =
    let (e, h, p) = verb_of-append name in (e, h, p, λ verb e'. verb_of_shortest name verb e')

-- In every suite, and in a chain without one, reading rpath does what reading runpath does.
pub getattr-rpath : (c : Chain) → getattr (codes "rpath") c ≡ getattr (codes "runpath") c
unfolding getattr contains list_beq
getattr-rpath c =
    elim c.suite as (λ o. set_attribute (codes "rpath") c o ≡ set_attribute (codes "runpath") c o) [
      | none ↦ refl
      | some true ↦ refl
      | some false ↦ refl
    ]

map-drop_slash : (globs : List Text) → map drop_slash (map (λ g. b'/' ∷ g) globs) ≡ globs
unfolding drop_slash
map-drop_slash [] = refl
map-drop_slash (g ∷ globs) = ap (λ l. g ∷ l) (map-drop_slash globs)

-- A path and globs that all start with a slash match as without those slashes.
pub glob_match_ignore_slash-slash :
    (env : Env) (s : Text) (globs : List Text)
    → glob_match_ignore_slash env (b'/' ∷ s) (map (λ g. b'/' ∷ g) globs) ≡ env.glob_match s globs
unfolding glob_match_ignore_slash
glob_match_ignore_slash-slash env s globs = ap (env.glob_match s) (map-drop_slash globs)
