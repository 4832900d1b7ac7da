-- ===== src/Prelude/Posix.antt =====
-- The functions of `os.path` and of `str` on paths that the program uses.
use kong_coco.Prelude.Tests.{nat_eq, ◌==◌, if◌then◌else◌, Bool-cases}
use kong_coco.Prelude.Lists.{contains, is_empty, all}
use kong_coco.Prelude.Texts.{Text}
use Prim.Native.Nat.{ℕ}
use mathlib.Core.Path.{◌≡◌, refl, ap}
use mathlib.Core.Logic.{inl, inr}
use mathlib.Core.Bool.{Bool, true, ◌&&◌}
use mathlib.Core.List.{[], ◌∷◌, ◌++◌}

-- `p[p.rfind(c) + 1:]` and `p[:p.rfind(c) + 1]`
after_last : ℕ → Text → Text
after_last b [] = []
after_last b (c ∷ s) =
    let rest = after_last b s in if contains b s then rest else if c == b then s else c ∷ s

up_to_last : ℕ → Text → Text
up_to_last b [] = []
up_to_last b (c ∷ s) =
    let rest = up_to_last b s in if contains b s then c ∷ rest else if c == b then c ∷ [] else []

-- `s.rstrip(c)`
unfoldable pub rstrip : ℕ → Text → Text
rstrip b [] = []
rstrip b (c ∷ s) = let rest = rstrip b s in if is_empty rest && c == b then [] else c ∷ rest

-- `s.lstrip(c)`
unfoldable pub lstrip : ℕ → Text → Text
lstrip b [] = []
lstrip b (c ∷ s) = let rest = lstrip b s in if c == b then rest else c ∷ s

-- `os.path.basename(p)`
unfoldable pub basename : Text → Text
unfolding after_last contains
basename = after_last b'/'

-- `os.path.dirname(p)`
unfoldable pub dirname : Text → Text
unfolding up_to_last contains rstrip all
dirname p =
    let head = up_to_last b'/' p in if all (λ c. c == b'/') head then head else rstrip b'/' head

-- From the last dot on, if there is one.
from_last_dot : Text → Text
from_last_dot [] = []
from_last_dot (c ∷ s) =
    let rest = from_last_dot s in if contains b'.' s then rest else if c == b'.' then c ∷ s else []

-- `os.path.splitext(p)[1]`: dots that lead the name do not count.
unfoldable pub splitext : Text → Text
unfolding from_last_dot basename lstrip contains
splitext p = from_last_dot (lstrip b'.' (basename p))

ends_in_slash : Text → Bool
ends_in_slash [] = true
ends_in_slash (c ∷ []) = c == b'/'
ends_in_slash (c ∷ d ∷ s) = ends_in_slash (d ∷ s)

-- `os.path.join(a, b)`
unfoldable pub join_path : Text → Text → Text
unfolding ends_in_slash
join_path a [] = if ends_in_slash a then a else a ++ b'/' ∷ []
join_path a (c ∷ b) =
    if c == b'/' then c ∷ b else if ends_in_slash a then a ++ c ∷ b else a ++ (b'/' ∷ c ∷ b)

split_last : (b : ℕ) (s : Text) → up_to_last b s ++ after_last b s ≡ s
unfolding up_to_last after_last
split_last b [] = refl
split_last b (c ∷ s) = elim (Bool-cases (contains b s)) [
  | inl t ↦ rw t (ap (λ r. c ∷ r) (split_last b s))
  | inr t ↦ elim (Bool-cases (c == b)) [ inl u ↦ rw (t, u) | inr u ↦ rw (t, u) ]
]
