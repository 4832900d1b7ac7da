-- ===== src/Regex.antt =====
-- The regular expressions that the suites search for with `re.search`: literals, `.`, `\d`,
-- escaped signs, groups with `|`, and `+`.
pub mod Matches
pub mod Search
pub mod Pattern
use kong_coco.Prelude.{
  ℕ, Bool, true, false, List, [], ◌∷◌, Text, not, ◌&&◌, ◌||◌, ◌==◌, nat_eq, leb,
}
use kong_coco.Prelude.Decimals.{is_decimal}

-- What one character of a pattern stands for. `dot` is not a line feed, and `digit` is a decimal
-- digit of any script.
pub data Class : Type 0 where
  exactly : ℕ → Class
  dot digit : Class

pub data Regex : Type 0 where
  never empty : Regex
  one : Class → Regex
  seq alt : Regex → Regex → Regex
  plus : Regex → Regex

unfoldable pub accepts : Class → ℕ → Bool
unfolding is_decimal
accepts (exactly b) c = b == c
accepts dot c = not (c == 10)
accepts digit c = is_decimal c

-- The empty text matches.
unfoldable pub nullable : Regex → Bool
nullable never = false
nullable empty = true
nullable (one k) = false
nullable (seq r q) = nullable r && nullable q
nullable (alt r q) = nullable r || nullable q
nullable (plus r) = nullable r

abbrev pub only_if : Bool → Regex → Regex
only_if true r = r
only_if false r = never

abbrev pub option : Bool → Regex
option true = empty
option false = never

-- What is left to match behind the character `c`.
unfoldable pub behind : ℕ → Regex → Regex
unfolding accepts nullable
behind c never = never
behind c empty = never
behind c (one k) = option (accepts k c)
behind c (seq r q) = alt (seq (behind c r) q) (only_if (nullable r) (behind c q))
behind c (alt r q) = alt (behind c r) (behind c q)
behind c (plus r) = seq (behind c r) (alt empty (plus r))

-- Some text at the start matches.
unfoldable pub match_start : Regex → Text → Bool
unfolding nullable behind
match_start r [] = nullable r
match_start r (c ∷ s) = nullable r || match_start (behind c r) s

-- Some text within matches.
unfoldable pub found : Regex → Text → Bool
unfolding match_start
found r [] = match_start r []
found r (c ∷ s) = match_start r (c ∷ s) || found r s
