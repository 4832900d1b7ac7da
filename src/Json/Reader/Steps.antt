-- ===== src/Json/Reader/Steps.antt =====
-- The reader on each kind of value, given what it makes of the parts.
use mathlib.Core.List.{append_assoc}
use kong_coco.Prelude.{
  ℕ, suc, ◌-◌, ◌≡◌, refl, sym, ap, ◌∙◌, inl, inr, Bool, true, false, not, none, some, [], ◌∷◌, ◌++◌,
  Text, codes, nat_eq, All, all, arith, Bool-cases,
}
use kong_coco.Prelude.Digits.{
  show, IsDigit, show-IsDigit, show-cons, show_base, value_from, value_from-show_base,
}
use kong_coco.Utf8.Encoding.{is_scalar}
use kong_coco.Json.Dumps.{
  JsonValue, null, boolean, whole, negative, text, array, dict, Items, no_items, item, Fields,
  no_fields, field, quote_string, separated,
}
use kong_coco.Json.Strings.RoundTrip.{read_string_literal-escaped, read_literal-quote_string}
use kong_coco.Json.Reader.{
  ◌>>=◌, digit, is_digit, start_of, leading_digits, read_number, read_value, read_items, read_entry,
  read_fields,
}
use kong_coco.Explain.Nginx.{after_prefix}

-- No digit leads the text.
unfoldable pub ends_number : Text → Bool
unfolding is_digit
ends_number [] = true
ends_number (c ∷ s) = not (is_digit c)

is_digit-IsDigit : (c : ℕ) → IsDigit c → is_digit c ≡ true
unfolding is_digit
is_digit-IsDigit c h = ground arith

leading_digits-ends : (s : Text) → ends_number s ≡ true → leading_digits s ≡ ([], s)
unfolding leading_digits ends_number
leading_digits-ends [] h = refl
leading_digits-ends (c ∷ s) h = elim (Bool-cases (is_digit c)) [
  | inl t ↦ absurd (contradiction (rw t at h))
  | inr t ↦ rw t refl
]
  where
    contradiction : false ≡ true → ⊥
    contradiction h = cc

leading_digits-append :
    (ds s : Text) → All IsDigit ds → ends_number s ≡ true → leading_digits (ds ++ s) ≡ (ds, s)
unfolding leading_digits
leading_digits-append [] s h e = leading_digits-ends s e
leading_digits-append (d ∷ ds) s (h, hs) e =
    rw (is_digit-IsDigit d h, leading_digits-append ds s hs e) refl

pub read_number-show :
    (n : ℕ) (s : Text) → ends_number s ≡ true → read_number (show n ++ s) ≡ (n, s)
unfolding read_number show
read_number-show n s e =
    ap (λ (r : Text × Text). (value_from 10 0 r.0, r.1))
      (leading_digits-append (show_base 10 n) s (show-IsDigit n) e)
    ∙ ap (λ k. (k, s)) (value_from-show_base 10 n (omega arith))

pub read-text :
    (f : ℕ) (t s : Text)
    → all is_scalar t ≡ true
    → read_value (suc f) (quote_string t ++ s) ≡ some (text t, s)
unfolding read_value quote_string
read-text f t s h =
    rw append_assoc (ap (λ r. r >>= λ p. some (text p.0, p.1)) (read_string_literal-escaped t s h))

pub read-array :
    (f : ℕ) (v : JsonValue) (vs : Items) (r q s : Text)
    → after_prefix (codes "]") r ≡ none
    → read_value f r ≡ some (v, q)
    → read_items f q ≡ some (vs, s)
    → read_value (suc f) (b'[' ∷ r) ≡ some (array (item v vs), s)
unfolding read_value
read-array f v vs r q s h hv hs = rw (h, hv, hs) refl

pub read-dict :
    (f : ℕ) (fs : Fields) (r s : Text)
    → after_prefix (codes "}") r ≡ none
    → read_entry f r ≡ some (fs, s)
    → read_value (suc f) (b'{' ∷ r) ≡ some (dict fs, s)
unfolding read_value
read-dict f fs r s h hs = rw (h, hs) refl

pub read-item :
    (f : ℕ) (v : JsonValue) (vs : Items) (r q s : Text)
    → read_value f r ≡ some (v, q)
    → read_items f q ≡ some (vs, s)
    → read_items (suc f) (separated r) ≡ some (item v vs, s)
unfolding read_items separated
read-item f v vs r q s hv hs = rw (hv, hs) refl

pub read-entry :
    (f : ℕ) (k : Text) (v : JsonValue) (fs : Fields) (r q s : Text)
    → all is_scalar k ≡ true
    → read_value f r ≡ some (v, q)
    → read_fields f q ≡ some (fs, s)
    → read_entry (suc f) (quote_string k ++ (codes ": " ++ r)) ≡ some (field k v fs, s)
unfolding read_entry
read-entry f k v fs r q s h hv hs =
    rw (read_literal-quote_string k (codes ": " ++ r) h, hv, hs) refl

pub read-field :
    (f : ℕ) (fs : Fields) (r s : Text)
    → read_entry f r ≡ some (fs, s)
    → read_fields (suc f) (separated r) ≡ some (fs, s)
unfolding read_fields separated
read-field f fs r s h = rw h refl

digit-start :
    (f c : ℕ) (s : Text)
    → IsDigit c
    → read_value (suc f) (c ∷ s) ≡ some (whole (read_number (c ∷ s)).0, (read_number (c ∷ s)).1)
unfolding read_value
digit-start f c s h = rw (read_value, start-digit c h) refl
  where
    start-digit : (c : ℕ) → IsDigit c → start_of c ≡ digit
    start-digit c h = unfold start_of in ground arith

pub read-whole :
    (f n : ℕ) (s : Text)
    → ends_number s ≡ true
    → read_value (suc f) (show n ++ s) ≡ some (whole n, s)
read-whole f n s e =
    let (c, r, shown, d) = show-cons n in
    ap (λ t. read_value (suc f) (t ++ s)) shown
    ∙ digit-start f c (r ++ s) d
    ∙ ap (λ t. some (whole (read_number (t ++ s)).0, (read_number (t ++ s)).1)) (sym shown)
    ∙ ap (λ (p : ℕ × Text). some (whole p.0, p.1)) (read_number-show n s e)

pub read-negative :
    (f n : ℕ) (s : Text)
    → ends_number s ≡ true
    → read_value (suc f) (b'-' ∷ (show (suc n) ++ s)) ≡ some (negative n, s)
unfolding read_value
read-negative f n s e =
    ap (λ (p : ℕ × Text). some (negative (p.0 - 1), p.1)) (read_number-show (suc n) s e)
    ∙ ap (λ k. some (negative k, s)) (omega arith)

pub read-atoms :
    (f : ℕ) (s : Text)
    → (read_value (suc f) (codes "null" ++ s) ≡ some (null, s))
      × (read_value (suc f) (codes "true" ++ s) ≡ some (boolean true, s))
      × (read_value (suc f) (codes "false" ++ s) ≡ some (boolean false, s))
      × (read_value (suc f) (codes "[]" ++ s) ≡ some (array no_items, s))
      × (read_value (suc f) (codes "{}" ++ s) ≡ some (dict no_fields, s))
unfolding read_value
read-atoms f s = (refl, refl, refl, refl, refl)

pub read-ends :
    (f : ℕ) (s : Text)
    → (read_items (suc f) (b']' ∷ s) ≡ some (no_items, s))
      × (read_fields (suc f) (b'}' ∷ s) ≡ some (no_fields, s))
unfolding read_items read_fields
read-ends f s = (refl, refl)
