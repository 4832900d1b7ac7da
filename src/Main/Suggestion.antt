-- ===== src/Main/Suggestion.antt =====
-- The suggestion for a suite that is unknown, `difflib.get_close_matches(targets.keys(), name, 1)`:
-- the word is the list of names, and what is compared with it are the letters of the given name.
use kong_coco.Prelude.{
  ℕ, ◌+◌, ◌*◌, ◌≤◌, ◌≡◌, refl, Bool, List, [], ◌∷◌, ◌++◌, Text, codes, leb, length, arith,
  if◌then◌else◌,
}
use kong_coco.Env.{Env}

abbrev min : ℕ → ℕ → ℕ
min a b = if leb a b then a else b

-- `s.real_quick_ratio() >= 0.6`, by the lengths of what is compared
unfoldable pub real_quick : ℕ → ℕ → Bool
real_quick a b = leb (6 * (a + b)) (20 * min a b)

module _ (env : Env) where
  -- Each letter is a sequence of one, which is compared with the names as a sequence of texts.
  close_letters : List Text → Text → List ℕ
  unfolding real_quick
  close_letters names [] = []
  close_letters names (c ∷ name) =
      let rest = close_letters names name in
      if real_quick 1 (length names)
      then (if env.letter_close names c then c ∷ rest else rest)
      else rest

  suggested : List ℕ → Text
  suggested [] = []
  suggested (c ∷ letters) = codes ", maybe you meant " ++ (env.best_letter c letters ∷ [])

  unfoldable pub maybe : List Text → Text → Text
  unfolding close_letters suggested
  maybe names name = suggested (close_letters names name)

  no_letters : (names : List Text) (name : Text) → 3 ≤ length names → close_letters names name ≡ []
  unfolding close_letters real_quick
  no_letters names [] h = refl
  no_letters names (c ∷ name) h = ground (arith, no_letters names name h)

  -- With three suites or more there is never a suggestion.
  pub maybe-none : (names : List Text) (name : Text) → 3 ≤ length names → maybe names name ≡ []
  unfolding maybe suggested
  maybe-none names name h = rw (no_letters names name h) refl
