-- ===== src/Prelude/Sorting.antt =====
-- `sorted` over an order given as a test. Python's sort is stable, and so is this one.
pub mod Exchange
pub mod Rearranged
use mathlib.Core.Path.{◌≡◌, refl, sym, ◌∙◌}
use mathlib.Core.Bool.{Bool, true, false, ◌&&◌}
use mathlib.Core.List.{List, [], ◌∷◌, map}
use mathlib.Core.Option.{some}
use native.Mathlib.Omega.{arith}
use kong_coco.Prelude.Tests.{if◌then◌else◌, Bool-cases}
use kong_coco.Prelude.Lists.{all, head?, get_last?}
use mathlib.Core.Logic.{inl, inr}

-- What `sorted` asks of `<`: ties are allowed.
pub record IsOrder {ℓ} {A : Type ℓ} (lt : A → A → Bool) : Type ℓ where
  pub asymm : (a b : A) → lt a b ≡ true → lt b a ≡ false
  pub le_trans : (a b c : A) → lt b a ≡ false → lt c b ≡ false → lt c a ≡ false

module _ {ℓ} {A : Type ℓ} (lt : A → A → Bool) where
  place : A → List A → List A
  place x [] = x ∷ []
  place x (y ∷ ys) = if lt y x then y ∷ place x ys else x ∷ y ∷ ys

  unfoldable pub sorted : List A → List A
  unfolding place
  sorted [] = []
  sorted (x ∷ xs) = place x (sorted xs)

  abbrev pub Ascending : List A → Type 0
  Ascending [] = Unit
  Ascending (x ∷ []) = Unit
  Ascending (x ∷ y ∷ ys) = (lt y x ≡ false) × Ascending (y ∷ ys)

  all-place : (p : A → Bool) (x : A) (ys : List A) → all p (place x ys) ≡ (p x && all p ys)
  unfolding all place
  all-place p x [] = refl
  all-place p x (y ∷ ys) = ground (arith, all-place p x ys)

  -- Sorting keeps the elements, as far as a test of all of them can tell.
  pub all-sorted : (p : A → Bool) (xs : List A) → all p (sorted xs) ≡ all p xs
  unfolding all sorted
  all-sorted p [] = refl
  all-sorted p (x ∷ xs) = ground (arith, all-place p x (sorted xs), all-sorted p xs)

  module _ (o : IsOrder lt) where
    place-Ascending : (x : A) (ys : List A) → Ascending ys → Ascending (place x ys)
    unfolding place
    place-Ascending x [] h = tt
    place-Ascending x (y ∷ []) h = ground (arith, o.asymm y x)
    place-Ascending x (y ∷ z ∷ ys) h =
        ground (arith, o.asymm y x, o.asymm z x, place-Ascending x (z ∷ ys) h.1)

    pub sorted-Ascending : (xs : List A) → Ascending (sorted xs)
    unfolding sorted
    sorted-Ascending [] = tt
    sorted-Ascending (x ∷ xs) = place-Ascending x (sorted xs) (sorted-Ascending xs)

    module _ (p : A → Bool) where
      -- A test that passes to smaller elements holds of all when it holds of the last one.
      all-eq-last :
          ((a b : A) → lt b a ≡ false → p b ≡ true → p a ≡ true)
          → (xs : List A) {m : A} → Ascending xs
          → get_last? xs ≡ some m
          → all p xs ≡ p m
      unfolding all
      all-eq-last down [] h e = ground arith
      all-eq-last down (x ∷ []) h e = ground arith
      all-eq-last down (x ∷ y ∷ xs) h e =
          ground (arith, all-eq-last down (y ∷ xs) h.1 e, down x y h.0)

      -- One that passes to larger elements holds of all when it holds of the first one.
      all-eq-head :
          ((a b : A) → lt b a ≡ false → p a ≡ true → p b ≡ true)
          → (x : A) (xs : List A) → Ascending (x ∷ xs)
          → all p (x ∷ xs) ≡ p x
      unfolding all
      all-eq-head up x [] h = ground arith
      all-eq-head up x (y ∷ xs) h = ground (arith, all-eq-head up y xs h.1, up x y h.0)

      pub all-eq-largest :
          ((a b : A) → lt b a ≡ false → p b ≡ true → p a ≡ true)
          → (xs : List A) (m : A) → get_last? (sorted xs) ≡ some m
          → all p xs ≡ p m
      all-eq-largest down xs m e =
          sym (all-sorted p xs) ∙ all-eq-last down (sorted xs) (sorted-Ascending xs) e

      pub all-eq-smallest :
          ((a b : A) → lt b a ≡ false → p a ≡ true → p b ≡ true)
          → (xs : List A) (m : A) → head? (sorted xs) ≡ some m
          → all p xs ≡ p m
      all-eq-smallest up xs m e = sym (all-sorted p xs) ∙ go (sorted xs) (sorted-Ascending xs) e
        where
          go : (ys : List A) → Ascending ys → head? ys ≡ some m → all p ys ≡ p m
          go [] h e' = cc
          go (y ∷ ys) h e' = rw (all-eq-head up y ys h) (cc)

  place-ne-nil : (x : A) (xs : List A) → (y : A) × (ys : List A) × (place x xs ≡ y ∷ ys)
  unfolding place
  place-ne-nil x [] = (x, [], refl)
  place-ne-nil x (y ∷ ys) = elim (Bool-cases (lt y x)) [
    | inl e ↦ (y, place x ys, rw e)
    | inr e ↦ (x, y ∷ ys, rw e)
  ]

  last_of : (y : A) (ys : List A) → (m : A) × (get_last? (y ∷ ys) ≡ some m)
  last_of y [] = (y, refl)
  last_of y (z ∷ ys) = last_of z ys

  -- A list with an element has a smallest and a largest one.
  pub head?-sorted : (x : A) (xs : List A) → (m : A) × (head? (sorted (x ∷ xs)) ≡ some m)
  unfolding sorted
  head?-sorted x xs = let (y, ys, e) = place-ne-nil x (sorted xs) in (y, rw e)

  pub get_last?-sorted : (x : A) (xs : List A) → (m : A) × (get_last? (sorted (x ∷ xs)) ≡ some m)
  unfolding sorted
  get_last?-sorted x xs = let (y, ys, e) = place-ne-nil x (sorted xs) in rw e (last_of y ys)

module _ {ℓ κ} {A : Type ℓ} {B : Type κ} (lt : A → A → Bool) (lt' : B → B → Bool) (f : A → B) where
  place-map :
      ((a b : A) → lt' (f a) (f b) ≡ lt a b)
      → (x : A) (xs : List A) → place lt' (f x) (map f xs) ≡ map f (place lt x xs)
  unfolding place
  place-map e x [] = refl
  place-map e x (y ∷ xs) = elim (Bool-cases (lt y x)) [
    | inl t ↦ rw (e, t) (rw (place-map e x xs))
    | inr t ↦ rw (e, t)
  ]

  -- Sorting commutes with a function that keeps the order.
  pub sorted-map :
      ((a b : A) → lt' (f a) (f b) ≡ lt a b)
      → (xs : List A) → sorted lt' (map f xs) ≡ map f (sorted lt xs)
  unfolding sorted
  sorted-map e [] = refl
  sorted-map e (x ∷ xs) = rw (sorted-map e xs) (place-map e x (sorted lt xs))
