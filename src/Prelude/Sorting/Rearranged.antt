-- ===== src/Prelude/Sorting/Rearranged.antt =====
-- Sorting rearranges a list.
use mathlib.Core.Bool.{Bool}
use mathlib.Core.List.{List, [], ◌∷◌, Perm}
use mathlib.Core.List.Perm
use mathlib.Core.Logic.{inl, inr}
use kong_coco.Prelude.Tests.{Bool-cases}
use kong_coco.Prelude.Sorting.{place, sorted}

module _ {ℓ} {A : Type ℓ} (lt : A → A → Bool) where
  place-Perm : (x : A) (xs : List A) → Perm (x ∷ xs) (place lt x xs)
  unfolding place
  place-Perm x [] = Perm.refl (x ∷ [])
  place-Perm x (y ∷ ys) = elim (Bool-cases (lt y x)) [
    | inl t ↦ rw t (Perm.trans (Perm.swap y x ys) (Perm.cons y (place-Perm x ys)))
    | inr t ↦ rw t (Perm.refl (x ∷ y ∷ ys))
  ]

  pub sorted-Perm : (xs : List A) → Perm xs (sorted lt xs)
  unfolding sorted
  sorted-Perm [] = Perm.refl []
  sorted-Perm (x ∷ xs) = Perm.trans (Perm.cons x (sorted-Perm xs)) (place-Perm x (sorted lt xs))
