-- ===== src/Prelude/Texts.antt =====
-- Texts as lists of code points (or of bytes), with the operations of `str` that the program uses.
use Prim.Native.Nat.{ℕ, ◌<◌}
use Prim.Native.Char.{code}
use Prim.Native.String.{String}
use mathlib.Core.Bool.{Bool, true, false, ◌&&◌, ◌||◌}
use mathlib.Core.List.{List, [], ◌∷◌, ◌++◌, reverse}
use kong_coco.Prelude.Tests.{nat_eq, ◌==◌, ltb}
use kong_coco.Prelude.Lists.{list_beq}

abbrev pub Text : Type 0
Text = List ℕ

abbrev pub IsByte : ℕ → Type 0
IsByte b = b < 256

-- The code points of a literal.
abbrev pub codes : String → Text
codes String.[] = []
codes (String.◌∷◌ c s) = code c ∷ codes s

-- `s.startswith(p)`
unfoldable pub starts_with : Text → Text → Bool
starts_with p [] = list_beq p []
starts_with [] (c ∷ s) = true
starts_with (b ∷ p) (c ∷ s) = b == c && starts_with p s

-- `s.endswith(p)`
unfoldable pub ends_with : Text → Text → Bool
unfolding starts_with
ends_with p s = starts_with (reverse p) (reverse s)

-- `p in s`
unfoldable pub is_substring : Text → Text → Bool
unfolding starts_with
is_substring p [] = list_beq p []
is_substring p (c ∷ s) = starts_with p (c ∷ s) || is_substring p s

-- `s < t`: by code points, a proper prefix first
unfoldable pub text_lt : Text → Text → Bool
text_lt s [] = false
text_lt [] (c ∷ t) = true
text_lt (b ∷ s) (c ∷ t) = ltb b c || (b == c && text_lt s t)

-- `sep.join(parts)`
unfoldable pub join : Text → List Text → Text
join sep [] = []
join sep (s ∷ []) = s
join sep (s ∷ t ∷ parts) = s ++ (sep ++ join sep (t ∷ parts))
