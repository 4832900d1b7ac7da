-- ===== src/Prelude/Digits.antt =====
-- Numbers in a base of two to ten, as `%s` and `oct` print them.
use Prim.Native.Nat.{ℕ, zero, suc, ◌+◌, ◌-◌, ◌*◌, ◌/◌, ◌%◌, ◌≤◌, ◌<◌}
use mathlib.Core.Path.{◌≡◌, refl, ◌∙◌}
use mathlib.Core.Logic.{inl, inr}
use mathlib.Core.Bool.{false}
use mathlib.Core.List.{[], ◌∷◌, ◌++◌}
use native.Mathlib.Omega.{arith}
use native.Mathlib.Nat.{div-lt_self}
use kong_coco.Prelude.Tests.{ltb, if◌then◌else◌, Bool-cases}
use kong_coco.Prelude.Texts.{Text}
use kong_coco.Prelude.Lists.{All}

-- Fuel above the number is enough: each round divides it.
digits_fuel : ℕ → ℕ → ℕ → Text
digits_fuel zero base n = []
digits_fuel (suc f) base n =
    let more = digits_fuel f base (n / base) ++ (b'0' + n % base) ∷ [] in
    if ltb n base then (b'0' + n) ∷ [] else more

unfoldable pub show_base : ℕ → ℕ → Text
unfolding digits_fuel
show_base base n = digits_fuel (suc n) base n

-- `str(n)`
unfoldable pub show : ℕ → Text
unfolding show_base
show = show_base 10

-- `oct(n)`
unfoldable pub oct : ℕ → Text
unfolding show_base
oct n = b'0' ∷ b'o' ∷ show_base 8 n

-- The number that digits stand for.
unfoldable pub value_from : ℕ → ℕ → Text → ℕ
value_from base acc [] = acc
value_from base acc (c ∷ s) = value_from base (acc * base + (c - b'0')) s

value_from-append :
    (base acc : ℕ) (s t : Text)
    → value_from base acc (s ++ t) ≡ value_from base (value_from base acc s) t
unfolding value_from
value_from-append base acc [] t = refl
value_from-append base acc (c ∷ s) t = value_from-append base (acc * base + (c - b'0')) s t

positive : (base n : ℕ) → 2 ≤ base → ltb n base ≡ false → 0 < n
positive base n h t = ground arith

div_smaller : (base n : ℕ) → 2 ≤ base → ltb n base ≡ false → n / base < n
div_smaller base n h t = div-lt_self (positive base n h t) h

last_digit : (base v n : ℕ) → v ≡ n / base → v * base + (b'0' + n % base - b'0') ≡ n
last_digit base v n e = rw e (grind arith)

value_from-digits_fuel :
    (f base n : ℕ) → 2 ≤ base → n < f → value_from base 0 (digits_fuel f base n) ≡ n
unfolding value_from digits_fuel
value_from-digits_fuel zero base n h k = elim k [ ]
value_from-digits_fuel (suc f) base n h k = elim (Bool-cases (ltb n base)) [
  | inl t ↦ rw t (omega arith)
  | inr t ↦ rw t (
      value_from-append base 0 (digits_fuel f base (n / base)) _
      ∙ last_digit base _ n
          (value_from-digits_fuel f base (n / base) h (omega (arith, div_smaller base n h t))))
]

-- Reading back what was printed, in any base from two on, gives the number.
pub value_from-show_base : (base n : ℕ) → 2 ≤ base → value_from base 0 (show_base base n) ≡ n
unfolding show_base
value_from-show_base base n h = value_from-digits_fuel (suc n) base n h (omega arith)

abbrev pub IsDigit : ℕ → Type 0
IsDigit c = (b'0' ≤ c) × (c ≤ b'9')

digits_fuel-IsDigit : (f n : ℕ) → All IsDigit (digits_fuel f 10 n)
unfolding digits_fuel
digits_fuel-IsDigit zero n = tt
digits_fuel-IsDigit (suc f) n = elim (Bool-cases (ltb n 10)) [
  | inl t ↦ rw t ((omega arith, ground arith), tt)
  | inr t ↦ rw t (
      All-digits (digits_fuel f 10 (n / 10)) (n % 10) (digits_fuel-IsDigit f (n / 10))
        (omega arith))
]
  where
    All-digits : (s : Text) (d : ℕ) → All IsDigit s → d < 10 → All IsDigit (s ++ (b'0' + d) ∷ [])
    All-digits [] d h k = ((omega arith, omega arith), tt)
    All-digits (c ∷ s) d (h, hs) k = (h, All-digits s d hs k)

pub show-IsDigit : (n : ℕ) → All IsDigit (show n)
unfolding show show_base
show-IsDigit n = digits_fuel-IsDigit (suc n) n

append-ne-nil : (s : Text) (c : ℕ) → s ++ c ∷ [] ≡ [] → ⊥
append-ne-nil [] c h = cc
append-ne-nil (b ∷ s) c h = cc

show-ne-nil : (n : ℕ) → show n ≡ [] → ⊥
unfolding show show_base digits_fuel
show-ne-nil n h = elim (Bool-cases (ltb n 10)) [
  | inl t ↦ cons-ne-nil (rw t at h)
  | inr t ↦ append-ne-nil _ _ (rw t at h)
]
  where
    cons-ne-nil : {c : ℕ} {s : Text} → c ∷ s ≡ [] → ⊥
    cons-ne-nil h = cc

-- A number has a first digit.
pub show-cons : (n : ℕ) → (c : ℕ) × (s : Text) × (show n ≡ c ∷ s) × IsDigit c
show-cons n = first (show n) refl (show-IsDigit n)
  where
    first :
        (s : Text)
        → show n ≡ s
        → All IsDigit s
        → (c : ℕ) × (r : Text) × (show n ≡ c ∷ r) × IsDigit c
    first [] e h = absurd (show-ne-nil n e)
    first (c ∷ r) e (h, _) = (c, r, e, h)
