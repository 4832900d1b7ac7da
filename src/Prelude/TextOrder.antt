-- ===== src/Prelude/TextOrder.antt =====
-- `<` on texts is an order.
use mathlib.Core.Path.{◌≡◌, refl}
use Prim.Native.Nat.{ℕ}
use mathlib.Core.Logic.{◌≢◌, ◌⊎◌, inl, inr}
use mathlib.Core.Bool.{true, false}
use kong_coco.Prelude.Tests.{nat_eq, nat_beq_iff, ltb, ◌==◌, Bool-cases}
use mathlib.Core.List.{[], ◌∷◌}
use native.Mathlib.Omega.{arith}
use kong_coco.Prelude.Texts.{Text, text_lt}
use kong_coco.Prelude.Sorting.{IsOrder}

text_lt_asymm : (s t : Text) → text_lt s t ≡ true → text_lt t s ≡ false
unfolding text_lt
text_lt_asymm [] [] h = refl
text_lt_asymm [] (c ∷ t) h = refl
text_lt_asymm (b ∷ s) [] h = cc
text_lt_asymm (b ∷ s) (c ∷ t) h = ground (arith, text_lt_asymm s t)

text_le_trans : (r s t : Text) → text_lt s r ≡ false → text_lt t s ≡ false → text_lt t r ≡ false
unfolding text_lt
text_le_trans [] s t h k = refl
text_le_trans (a ∷ r) [] t h k = cc
text_le_trans (a ∷ r) (b ∷ s) [] h k = cc
text_le_trans (a ∷ r) (b ∷ s) (c ∷ t) h k = ground (arith, text_le_trans r s t)

pub text_lt-IsOrder : IsOrder text_lt
text_lt-IsOrder = record { asymm = text_lt_asymm; le_trans = text_le_trans }

pub text_lt_total : (s t : Text) → s ≢ t → (text_lt s t ≡ true) ⊎ (text_lt t s ≡ true)
unfolding text_lt
text_lt_total [] [] h = absurd (h refl)
text_lt_total [] (c ∷ t) h = inl refl
text_lt_total (b ∷ s) [] h = inr refl
text_lt_total (b ∷ s) (c ∷ t) h = elim (Bool-cases (b == c)) [
  | inl e ↦ elim (text_lt_total s t (λ q. h (same_heads e q))) [
    | inl k ↦ inl (ground (arith, k, nat_beq_iff b c))
    | inr k ↦ inr (ground (arith, k, nat_beq_iff b c))
  ]
  | inr e ↦ elim (Bool-cases (ltb b c)) [ inl k ↦ inl (ground arith) | inr k ↦ inr (ground arith) ]
]
  where
    same_heads : {b c : ℕ} {s t : Text} → (b == c) ≡ true → s ≡ t → b ∷ s ≡ c ∷ t
    same_heads {b} {c} e q = cc ((nat_beq_iff b c).0 e)
