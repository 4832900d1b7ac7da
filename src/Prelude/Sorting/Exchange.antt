-- ===== src/Prelude/Sorting/Exchange.antt =====
-- Sorting does not see the order of elements that differ in it.
use mathlib.Core.Path.{◌≡◌, ap, sym}
use mathlib.Core.Logic.{◌⊎◌, inl, inr}
use mathlib.Core.Bool.{Bool, true}
use mathlib.Core.List.{List, [], ◌∷◌}
use native.Mathlib.Omega.{arith}
use kong_coco.Prelude.Sorting.{IsOrder, place, sorted}

module _ {ℓ} {A : Type ℓ} (lt : A → A → Bool) where
  pub sorted-cons :
      (x : A) (xs ys : List A)
      → sorted lt xs ≡ sorted lt ys
      → sorted lt (x ∷ xs) ≡ sorted lt (x ∷ ys)
  unfolding sorted
  sorted-cons x xs ys h = ap (place lt x) h

  module _ (o : IsOrder lt) where
    place-exchange :
        (a b : A) (xs : List A)
        → lt a b ≡ true
        → place lt a (place lt b xs) ≡ place lt b (place lt a xs)
    unfolding place
    place-exchange a b [] h = ground (arith, o.asymm a b)
    place-exchange a b (x ∷ xs) h =
        ground (arith, o.asymm a b, o.le_trans a b x, place-exchange a b xs h)

    pub sorted-exchange :
        (a b : A) (xs : List A)
        → (lt a b ≡ true) ⊎ (lt b a ≡ true)
        → sorted lt (a ∷ b ∷ xs) ≡ sorted lt (b ∷ a ∷ xs)
    unfolding sorted
    sorted-exchange a b xs (inl h) = place-exchange a b (sorted lt xs) h
    sorted-exchange a b xs (inr h) = sym (place-exchange b a (sorted lt xs) h)
