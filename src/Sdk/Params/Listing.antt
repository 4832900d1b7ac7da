-- ===== src/Sdk/Params/Listing.antt =====
-- The items of parameters in the order of their keys, said without sorting.
use mathlib.Core.List.{Perm}
use kong_coco.Prelude.{
  ◌≡◌, refl, ap, sym, ◌∙◌, Bool, List, [], ◌∷◌, map, Text, text_lt, keep, Option, none, some,
}
use kong_coco.Prelude.Sorting.{sorted, Ascending, sorted-Ascending, sorted-map, IsOrder}
use kong_coco.Prelude.Sorting.Rearranged.{sorted-Perm}
use kong_coco.Prelude.TextOrder.{text_lt-IsOrder}
use kong_coco.Json.Dumps.{JsonValue, null, boolean, whole, negative, text, array, dict}
use kong_coco.Sdk.Params.{Params, str_of, is_given, key_lt, as_text, sorted_items}

abbrev pub Items : Type 0
Items = List (Text × Text)

-- Two items in the order of their keys.
abbrev pub below : Text × Text → Text × Text → Bool
below a b = text_lt a.0 b.0

module _ (repr : JsonValue → Text) where
  -- The items whose value is not None, with the value as a text.
  unfoldable pub given_items : Params → Items
  unfolding str_of
  given_items [] = []
  given_items ((k, null) ∷ params) = given_items params
  given_items ((k, v) ∷ params) = (k, str_of repr v) ∷ given_items params

  -- The items that are not None, each as often as it stands there, in ascending order of the keys.
  abbrev pub IsListing : Params → Items → Type 0
  IsListing params items = Perm (given_items params) items × Ascending below items

  -- Of a payload, if there is one.
  abbrev pub Lists : Option Params → Option Items → Type 0
  Lists none none = Unit
  Lists (some params) (some items) = IsListing params items
  Lists _ _ = ⊥

  given_items-keep :
      (params : Params) → map (as_text repr) (keep is_given params) ≡ given_items params
  unfolding keep given_items
  given_items-keep [] = refl
  given_items-keep ((k, null) ∷ params) = given_items-keep params
  given_items-keep ((k, boolean b) ∷ params) = rw (given_items-keep params) refl
  given_items-keep ((k, whole n) ∷ params) = rw (given_items-keep params) refl
  given_items-keep ((k, negative n) ∷ params) = rw (given_items-keep params) refl
  given_items-keep ((k, text s) ∷ params) = rw (given_items-keep params) refl
  given_items-keep ((k, array vs) ∷ params) = rw (given_items-keep params) refl
  given_items-keep ((k, dict fs) ∷ params) = rw (given_items-keep params) refl

  below-IsOrder : IsOrder below
  below-IsOrder = record {
    asymm = λ a b. text_lt-IsOrder.asymm a.0 b.0;
    le_trans = λ a b c. text_lt-IsOrder.le_trans a.0 b.0 c.0;
  }

  sorted_items-sorted :
      (params : Params) → sorted below (given_items params) ≡ sorted_items repr params
  unfolding sorted_items
  sorted_items-sorted params =
      ap (sorted below) (sym (given_items-keep params))
      ∙ sorted-map key_lt below (as_text repr) (λ a b. refl) (keep is_given params)

  -- What is encoded lists the parameters.
  pub sorted_items-IsListing : (params : Params) → IsListing params (sorted_items repr params)
  sorted_items-IsListing params = rw (← sorted_items-sorted params) (
    sorted-Perm below (given_items params),
    sorted-Ascending below below-IsOrder (given_items params),
  )
