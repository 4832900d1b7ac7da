-- ===== src/Sdk/Params/Order.antt =====
-- The text that is signed does not depend on the order of the keys.
use mathlib.Core.Logic.{∥∥₁_elim, ◌≢◌, inl, inr}
use mathlib.Core.HLevel.{¬_prop}
use mathlib.Core.List.{Perm, Permᴰ, Pairwise, mem-cons_self}
use mathlib.Core.List.Permᴰ
use kong_coco.Prelude.{◌≡◌, refl, sym, ap, ◌∙◌, List, ◌∷◌, map, Text, keep, Bool-cases}
use kong_coco.Prelude.Sorting.{IsOrder, sorted}
use kong_coco.Prelude.Sorting.Exchange.{sorted-cons, sorted-exchange}
use kong_coco.Prelude.TextOrder.{text_lt-IsOrder, text_lt_total}
use kong_coco.Json.Dumps.{JsonValue}
use kong_coco.Sdk.Params.{Params, is_given, key_lt, as_text, sorted_items}

key_lt-IsOrder : IsOrder key_lt
key_lt-IsOrder = record {
  asymm = λ a b. text_lt-IsOrder.asymm a.0 b.0;
  le_trans = λ a b c. text_lt-IsOrder.le_trans a.0 b.0 c.0;
}

-- Two items with different keys.
abbrev pub Differ : Text × JsonValue → Text × JsonValue → Type 0
Differ a b = a.0 ≢ b.0

abbrev ordered : Params → Params
ordered params = sorted key_lt (keep is_given params)

ordered-cons :
    (a : Text × JsonValue) (p q : Params)
    → ordered p ≡ ordered q
    → ordered (a ∷ p) ≡ ordered (a ∷ q)
unfolding keep
ordered-cons a p q h = elim (Bool-cases (is_given a)) [
  | inl t ↦ rw t (sorted-cons key_lt a (keep is_given p) (keep is_given q) h)
  | inr t ↦ rw t h
]

ordered-exchange :
    (a b : Text × JsonValue) (p : Params) → Differ a b → ordered (a ∷ b ∷ p) ≡ ordered (b ∷ a ∷ p)
unfolding keep
ordered-exchange a b p d = elim (Bool-cases (is_given a)) [
  | inl t ↦ elim (Bool-cases (is_given b)) [
    | inl u ↦
        rw (t, u)
          (sorted-exchange key_lt key_lt-IsOrder a b (keep is_given p) (text_lt_total a.0 b.0 d))
    | inr u ↦ rw (t, u) refl
  ]
  | inr t ↦ elim (Bool-cases (is_given b)) [ inl u ↦ rw (t, u) refl | inr u ↦ rw (t, u) refl ]
]

Differ-symm : (a b : Text × JsonValue) → Differ a b → Differ b a
Differ-symm a b d e = d (sym e)

ordered-permᴰ : (p q : Params) → Permᴰ p q → Pairwise Differ p → ordered p ≡ ordered q
ordered-permᴰ p q Permᴰ.nil d = refl
ordered-permᴰ p q (Permᴰ.cons {a = a} {l₁ = l} {l₂ = m} e π) (Pairwise.cons _ d) =
    ordered-cons a l m (ordered-permᴰ l m π d) ∙ ap (λ x. ordered (x ∷ m)) e
ordered-permᴰ p q (Permᴰ.swap {a = a} {b = b} {a' = a'} {b' = b'} {l = l} e k)
      (Pairwise.cons below _) =
    ordered-exchange a b l (below b mem-cons_self)
    ∙ ap (λ x. ordered (x ∷ a ∷ l)) k
    ∙ ap (λ x. ordered (a' ∷ x ∷ l)) e
ordered-permᴰ p q (Permᴰ.trans {l₂ = m} π ρ) d =
    ordered-permᴰ p m π d
    ∙ ordered-permᴰ m q ρ (Permᴰ.pairwise {R = Differ} (λ a b. ¬_prop) Differ-symm π d)

items_set : IsSet (List (Text × Text))
items_set = hlevel

pub sorted_items-perm :
    (repr : JsonValue → Text) (p q : Params)
    → Pairwise Differ p
    → Perm p q
    → sorted_items repr p ≡ sorted_items repr q
sorted_items-perm repr p q d π =
    ∥∥₁_elim π (items_set (sorted_items repr p) (sorted_items repr q)) (λ ρ. same_items ρ)
  where
    same_items : Permᴰ p q → sorted_items repr p ≡ sorted_items repr q
    same_items ρ = unfold sorted_items in ap (map (as_text repr)) (ordered-permᴰ p q ρ d)
