-- ===== src/Env.antt =====
-- What the program calls and does not contain: the globmatch and looseversion packages, the
-- regular expressions of `re`, the suggestions of difflib, and the diff command.
use kong_coco.Prelude.{ℕ, Bool, Option, List, Text}
use kong_coco.Prelude.Sorting.{IsOrder}

pub record Env : Type 0 where
  -- `globmatch.glob_match(path, globs)`
  pub glob_match : Text → List Text → Bool
  -- `bool(re.search(pattern, text))`, for patterns with more syntax than Regex/Pattern.antt reads
  pub search : Text → Text → Bool
  -- `LooseVersion(a) < LooseVersion(b)` and `LooseVersion(a) == LooseVersion(b)`
  pub version_lt : Text → Text → Bool
  pub version_eq : Text → Text → Bool
  -- the first of `difflib.get_close_matches(word, possibilities, 1)`
  pub close_match : Text → List Text → Option Text
  -- in the same function on a list of texts and a letter: `s.quick_ratio() >= 0.6` and
  -- `s.ratio() >= 0.6`, and the letter with the best ratio
  pub letter_close : List Text → ℕ → Bool
  pub best_letter : ℕ → List ℕ → ℕ
  -- the exit status of `diff -BbNaur FILE -` is 0, with the manifest on its standard input
  pub same_manifest : Text → Text → Bool

-- What looseversion documents: versions are ordered.
pub record IsVersioned (env : Env) : Type 0 where
  pub version_order : IsOrder env.version_lt
