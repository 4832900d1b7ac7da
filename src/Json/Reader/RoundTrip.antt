-- ===== src/Json/Reader/RoundTrip.antt =====
-- Reading back what dumps wrote.
use mathlib.Core.List.{append_assoc}
use kong_coco.Prelude.{
  ℕ, zero, suc, ◌+◌, ◌≤◌, ◌≡◌, refl, ap, ◌∙◌, Bool, true, false, ◌&&◌, none, some, [], ◌∷◌, ◌++◌,
  Text, codes, nat_eq, all, arith,
}
use kong_coco.Prelude.Digits.{IsDigit, show-cons}
use kong_coco.Utf8.Encoding.{is_scalar}
use kong_coco.Utf8.RoundTrip.{and_true}
use kong_coco.Json.Dumps.{
  JsonValue, null, boolean, whole, negative, text, array, dict, Items, no_items, item, Fields,
  no_fields, field, quote_string, separated, dumps, dumps_items, dumps_fields,
}
use kong_coco.Json.Reader.{read_value, read_items, read_entry, read_fields}
use kong_coco.Json.Reader.Steps.{
  ends_number, read-text, read-array, read-dict, read-item, read-entry, read-field, read-whole,
  read-negative, read-atoms, read-ends,
}
use kong_coco.Explain.Nginx.{after_prefix}

-- How deep the reader has to go.
unfoldable mutual
  pub size : JsonValue → ℕ
  size (array (item v vs)) = suc (size v + size_items vs)
  size (dict (field k v fs)) = suc (suc (size v + size_fields fs))
  size v = 1

  pub size_items : Items → ℕ
  size_items no_items = 1
  size_items (item v vs) = suc (size v + size_items vs)

  pub size_fields : Fields → ℕ
  size_fields no_fields = 1
  size_fields (field k v fs) = suc (suc (size v + size_fields fs))

-- No surrogate stands in the texts and keys of a value.
unfoldable mutual
  unfolding all

  pub is_scalar_value : JsonValue → Bool
  is_scalar_value (text s) = all is_scalar s
  is_scalar_value (array vs) = is_scalar_items vs
  is_scalar_value (dict fs) = is_scalar_fields fs
  is_scalar_value v = true

  pub is_scalar_items : Items → Bool
  is_scalar_items no_items = true
  is_scalar_items (item v vs) = is_scalar_value v && is_scalar_items vs

  pub is_scalar_fields : Fields → Bool
  is_scalar_fields no_fields = true
  is_scalar_fields (field k v fs) = all is_scalar k && (is_scalar_value v && is_scalar_fields fs)

-- A value does not begin as an array ends.
digit-no_bracket : (c : ℕ) (s : Text) → IsDigit c → after_prefix (codes "]") (c ∷ s) ≡ none
unfolding after_prefix
digit-no_bracket c s h = ground arith

dumps-no_bracket : (v : JsonValue) (s : Text) → after_prefix (codes "]") (dumps v ++ s) ≡ none
unfolding dumps after_prefix
dumps-no_bracket null s = refl
dumps-no_bracket (boolean true) s = refl
dumps-no_bracket (boolean false) s = refl
dumps-no_bracket (whole n) s =
    let (c, r, e, d) = show-cons n in
    ap (λ t. after_prefix (codes "]") (t ++ s)) e ∙ digit-no_bracket c (r ++ s) d
dumps-no_bracket (negative n) s = refl
dumps-no_bracket (text t) s = refl
dumps-no_bracket (array no_items) s = refl
dumps-no_bracket (array (item v vs)) s = refl
dumps-no_bracket (dict no_fields) s = refl
dumps-no_bracket (dict (field k v fs)) s = refl

-- What follows an item or a field is no digit.
items-ends : (vs : Items) (s : Text) → ends_number (dumps_items vs ++ (b']' ∷ s)) ≡ true
unfolding ends_number dumps_items
items-ends no_items s = refl
items-ends (item v vs) s = refl

fields-ends : (fs : Fields) (s : Text) → ends_number (dumps_fields fs ++ (b'}' ∷ s)) ≡ true
unfolding ends_number dumps_fields
fields-ends no_fields s = refl
fields-ends (field k v fs) s = refl

array_text : (a b s : Text) (c : ℕ) → (a ++ (b ++ c ∷ [])) ++ s ≡ a ++ (b ++ (c ∷ s))
array_text a b s c = rw (append_assoc a, append_assoc b) refl

entry_text :
    (k a b s : Text)
    → (k ++ (codes ": " ++ (a ++ (b ++ b'}' ∷ [])))) ++ s
      ≡ k ++ (codes ": " ++ (a ++ (b ++ (b'}' ∷ s))))
entry_text k a b s =
    append_assoc k (codes ": " ++ (a ++ (b ++ b'}' ∷ []))) s
    ∙ ap (λ t. k ++ (codes ": " ++ t)) (array_text a b s b'}')

item_text : (a b s : Text) → separated (a ++ b) ++ s ≡ separated (a ++ (b ++ s))
unfolding separated
item_text a b s = rw append_assoc refl

field_text :
    (k a b s : Text)
    → separated (k ++ (codes ": " ++ (a ++ b))) ++ s
      ≡ separated (k ++ (codes ": " ++ (a ++ (b ++ s))))
unfolding separated
field_text k a b s = rw (append_assoc k, append_assoc a) refl

key-no_brace : (k s : Text) → after_prefix (codes "}") (quote_string k ++ s) ≡ none
unfolding quote_string after_prefix
key-no_brace k s = refl

mutual
  unfolding size is_scalar_value dumps

  pub value_read :
      (v : JsonValue) (f : ℕ) (s : Text)
      → size v ≤ f
      → is_scalar_value v ≡ true
      → ends_number s ≡ true
      → read_value f (dumps v ++ s) ≡ some (v, s)
  value_read null zero s h k e = absurd (omega arith)
  value_read null (suc f) s h k e = (read-atoms f s).0
  value_read (boolean true) zero s h k e = absurd (omega arith)
  value_read (boolean true) (suc f) s h k e = (read-atoms f s).1
  value_read (boolean false) zero s h k e = absurd (omega arith)
  value_read (boolean false) (suc f) s h k e = (read-atoms f s).2
  value_read (whole n) zero s h k e = absurd (omega arith)
  value_read (whole n) (suc f) s h k e = read-whole f n s e
  value_read (negative n) zero s h k e = absurd (omega arith)
  value_read (negative n) (suc f) s h k e = read-negative f n s e
  value_read (text t) zero s h k e = absurd (omega arith)
  value_read (text t) (suc f) s h k e = read-text f t s k
  value_read (array no_items) zero s h k e = absurd (omega arith)
  value_read (array no_items) (suc f) s h k e = (read-atoms f s).3
  value_read (array (item v vs)) zero s h k e = absurd (omega arith)
  value_read (array (item v vs)) (suc f) s h k e =
      let (hv, hs) = and_true (is_scalar_value v) (is_scalar_items vs) k in
      ap (λ t. read_value (suc f) (b'[' ∷ t)) (array_text (dumps v) (dumps_items vs) s b']')
      ∙ read-array f v vs _ (dumps_items vs ++ (b']' ∷ s)) s (dumps-no_bracket v _)
          (value_read v f (dumps_items vs ++ (b']' ∷ s)) (omega arith) hv (items-ends vs s))
          (items_read vs f s (omega arith) hs)
  value_read (dict no_fields) zero s h k e = absurd (omega arith)
  value_read (dict no_fields) (suc f) s h k e = (read-atoms f s).4
  value_read (dict (field key v fs)) zero s h k e = absurd (omega arith)
  value_read (dict (field key v fs)) (suc f) s h k e =
      ap (λ t. read_value (suc f) (b'{' ∷ t))
        (entry_text (quote_string key) (dumps v) (dumps_fields fs) s)
      ∙ read-dict f (field key v fs) _ s (key-no_brace key _)
          (entry_read key v fs f s (omega arith) k)

  items_read :
      (vs : Items) (f : ℕ) (s : Text)
      → size_items vs ≤ f
      → is_scalar_items vs ≡ true
      → read_items f (dumps_items vs ++ (b']' ∷ s)) ≡ some (vs, s)
  items_read no_items zero s h k = absurd (omega arith)
  items_read no_items (suc f) s h k = (read-ends f s).0
  items_read (item v vs) zero s h k = absurd (omega arith)
  items_read (item v vs) (suc f) s h k =
      let (hv, hs) = and_true (is_scalar_value v) (is_scalar_items vs) k in
      ap (read_items (suc f)) (item_text (dumps v) (dumps_items vs) (b']' ∷ s))
      ∙ read-item f v vs _ (dumps_items vs ++ (b']' ∷ s)) s
          (value_read v f (dumps_items vs ++ (b']' ∷ s)) (omega arith) hv (items-ends vs s))
          (items_read vs f s (omega arith) hs)

  entry_read :
      (key : Text) (v : JsonValue) (fs : Fields) (f : ℕ) (s : Text)
      → suc (size v + size_fields fs) ≤ f
      → (all is_scalar key && (is_scalar_value v && is_scalar_fields fs)) ≡ true
      → read_entry f
          (quote_string key ++ (codes ": " ++ (dumps v ++ (dumps_fields fs ++ (b'}' ∷ s)))))
        ≡ some (field key v fs, s)
  entry_read key v fs zero s h k = absurd (omega arith)
  entry_read key v fs (suc f) s h k =
      let (hk, rest) = and_true (all is_scalar key) (is_scalar_value v && is_scalar_fields fs) k in
      let (hv, hs) = and_true (is_scalar_value v) (is_scalar_fields fs) rest in
      read-entry f key v fs _ (dumps_fields fs ++ (b'}' ∷ s)) s hk
        (value_read v f (dumps_fields fs ++ (b'}' ∷ s)) (omega arith) hv (fields-ends fs s))
        (fields_read fs f s (omega arith) hs)

  fields_read :
      (fs : Fields) (f : ℕ) (s : Text)
      → size_fields fs ≤ f
      → is_scalar_fields fs ≡ true
      → read_fields f (dumps_fields fs ++ (b'}' ∷ s)) ≡ some (fs, s)
  fields_read no_fields zero s h k = absurd (omega arith)
  fields_read no_fields (suc f) s h k = (read-ends f s).1
  fields_read (field key v fs) zero s h k = absurd (omega arith)
  fields_read (field key v fs) (suc f) s h k =
      ap (read_fields (suc f))
        (field_text (quote_string key) (dumps v) (dumps_fields fs) (b'}' ∷ s))
      ∙ read-field f (field key v fs) _ s (entry_read key v fs f s (omega arith) k)
