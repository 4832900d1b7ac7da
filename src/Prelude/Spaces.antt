-- ===== src/Prelude/Spaces.antt =====
-- White space in texts.
use kong_coco.Prelude.Tests.{nat_eq, if◌then◌else◌}
use kong_coco.Prelude.Lists.{contains}
use kong_coco.Prelude.Texts.{Text}
use Prim.Native.Nat.{ℕ}
use mathlib.Core.Bool.{Bool}
use mathlib.Core.List.{List, [], ◌∷◌, reverse}

abbrev spaces : List ℕ
spaces =
    9
    ∷ 10
    ∷ 11
    ∷ 12
    ∷ 13
    ∷ 28
    ∷ 29
    ∷ 30
    ∷ 31
    ∷ 32
    ∷ 0x85
    ∷ 0xA0
    ∷ 0x1680
    ∷ (0x2000 ∷ 0x2001 ∷ 0x2002 ∷ 0x2003 ∷ 0x2004 ∷ 0x2005 ∷ 0x2006 ∷ 0x2007 ∷ 0x2008 ∷ 0x2009
        ∷ 0x200A ∷ 0x2028 ∷ 0x2029 ∷ 0x202F ∷ 0x205F ∷ 0x3000 ∷ [])

-- `c.isspace()`, which is also `\s`
unfoldable pub is_space : ℕ → Bool
unfolding contains
is_space c = contains c spaces

unfoldable pub drop_spaces : Text → Text
unfolding is_space
drop_spaces [] = []
drop_spaces (c ∷ s) = let rest = drop_spaces s in if is_space c then rest else c ∷ s

-- `s.strip()`
unfoldable pub strip : Text → Text
unfolding drop_spaces
strip s = reverse (drop_spaces (reverse (drop_spaces s)))
