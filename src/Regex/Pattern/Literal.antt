-- ===== src/Regex/Pattern/Literal.antt =====
-- Patterns without signs of their own.
use mathlib.Core.List.{append_assoc, append-nil}
use kong_coco.Prelude.{
  ◌≡◌, ◌↔◌, refl, sym, ◌∙◌, ap, ℕ, Bool, true, false, none, some, List, [], ◌∷◌, ◌++◌, Text, codes,
  contains, list_eq, nat_eq, All, arith, nat_beq_iff,
}
use kong_coco.Env.{Env}
use kong_coco.Regex.{Regex, one, exactly, accepts}
use kong_coco.Regex.Matches.{Matches}
use kong_coco.Regex.Search.{found_iff}
use kong_coco.Regex.Pattern.{
  State, sequence, close, plain_sign, read_sign, finish, compile_from, compile, re_search,
}

-- The signs that are not literal.
abbrev pub signs : Text
signs = codes "\\.()|+*?[]{}^$"

abbrev pub IsLiteral : Text → Type 0
IsLiteral p = All (λ c. contains c signs ≡ false) p

-- A state that reads at the outermost level, before any alternative.
abbrev reading : List Regex → Bool → State
reading items repeatable = record {
  outer = [];
  frame = record { alternatives = none; items = items; repeatable = repeatable };
  escaped = false;
}

read_sign-literal :
    (items : List Regex) (b : Bool) (c : ℕ)
    → contains c signs ≡ false
    → read_sign (reading items b) c ≡ some (reading (one (exactly c) ∷ items) true)
unfolding read_sign plain_sign contains
read_sign-literal items b c h = ground arith

push_all : Text → List Regex → List Regex
push_all [] items = items
push_all (c ∷ p) items = push_all p (one (exactly c) ∷ items)

compile_from-literal :
    (p : Text) (items : List Regex) (b : Bool)
    → IsLiteral p
    → compile_from (reading items b) p ≡ some (sequence (push_all p items))
unfolding compile_from finish close push_all
compile_from-literal [] items b l = refl
compile_from-literal (c ∷ p) items b (h, l) =
    rw (compile_from, read_sign-literal items b c h)
      (compile_from-literal p (one (exactly c) ∷ items) true l)

-- What the items match, and behind it the rest of the pattern.
push_all-Matches :
    (p : Text) (items : List Regex) (s : Text)
    → Matches (sequence (push_all p items)) s
    → (u : Text) × (s ≡ u ++ p) × Matches (sequence items) u
unfolding push_all sequence Matches accepts
push_all-Matches [] items s m = (s, sym (append-nil s), m)
push_all-Matches (c ∷ p) items s m =
    let (u, e, n) = push_all-Matches p (one (exactly c) ∷ items) s m in
    let (v, t, n') = one_more c items u n in
    (v, e ∙ ap (λ w. w ++ p) t ∙ append_assoc v (c ∷ []) p, n')
  where
    one_more :
        (c : ℕ) (items : List Regex) (u : Text)
        → Matches (sequence (one (exactly c) ∷ items)) u
        → (v : Text) × (u ≡ v ++ c ∷ []) × Matches (sequence items) v
    one_more c items u (v, w, e, m, (d, e', a)) =
        (v, e ∙ ap (λ t. v ++ t) (e' ∙ ap (λ b. b ∷ []) (sym ((nat_beq_iff c d).0 a))), m)

Matches-push_all :
    (p : Text) (items : List Regex) (u : Text)
    → Matches (sequence items) u
    → Matches (sequence (push_all p items)) (u ++ p)
unfolding push_all sequence Matches accepts
Matches-push_all [] items u m = rw (append-nil u) m
Matches-push_all (c ∷ p) items u m = rw (append_assoc u (c ∷ []) p) at (
    Matches-push_all p (one (exactly c) ∷ items) (u ++ c ∷ [])
      (u, c ∷ [], refl, m, (c, refl, (nat_beq_iff c c).1 refl)))

-- What a pattern without signs of its own matches is itself.
literal-Matches : (p s : Text) → Matches (sequence (push_all p [])) s → s ≡ p
unfolding sequence Matches
literal-Matches p s m = let (u, e, n) = push_all-Matches p [] s m in e ∙ ap (λ t. t ++ p) n

-- re.search finds a pattern without signs of its own exactly in the texts that hold it.
pub re_search-literal :
    (env : Env) (p s : Text)
    → IsLiteral p
    → (re_search env p s ≡ true) ↔ ((pre : Text) × (post : Text) × (s ≡ pre ++ (p ++ post)))
unfolding re_search compile sequence Matches
re_search-literal env p s l =
    rw (re_search, compile_from-literal p [] false l)
      (
        λ h.
            let (pre, u, post, e, m) = (found_iff (sequence (push_all p [])) s).0 h in
            (pre, post, e ∙ ap (λ t. pre ++ (t ++ post)) (literal-Matches p u m)),
        λ (pre, post, e).
            (found_iff (sequence (push_all p [])) s).1
              (pre, p, post, e, Matches-push_all p [] [] refl),
      )
