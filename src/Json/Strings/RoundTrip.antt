-- ===== src/Json/Strings/RoundTrip.antt =====
-- The text of a literal is the text that it was written for.
use mathlib.Core.List.{flat_map, append_assoc}
use kong_coco.Prelude.{
  ℕ, ◌+◌, ◌-◌, ◌/◌, ◌%◌, ◌<◌, ◌≡◌, refl, ap, ◌∙◌, inl, inr, true, false, some, List, [], ◌∷◌, ◌++◌,
  Text, ltb, nat_eq, all, arith, Bool-cases,
}
use kong_coco.Utf8.Encoding.{is_scalar}
use kong_coco.Utf8.RoundTrip.{and_true, below_limit}
use kong_coco.Json.Dumps.{escape, quote_string}
use kong_coco.Json.Strings.{plain, before, units, combine, read_string_literal, read_literal}
use kong_coco.Json.Strings.Units.{utf16, before_all, units-escape}

combine-small : (c : ℕ) (us : List ℕ) → is_scalar c ≡ true → combine (c ∷ us) ≡ c ∷ combine us
unfolding combine is_scalar
combine-small c [] h = refl
combine-small c (w ∷ us) h = ground arith

combine-utf16 :
    (c : ℕ) (us : List ℕ) → is_scalar c ≡ true → combine (utf16 c ++ us) ≡ c ∷ combine us
unfolding utf16
combine-utf16 c us h = elim (Bool-cases (ltb c 0x10000)) [
  | inl t ↦ rw t (combine-small c us h)
  | inr t ↦ rw t (combine-pair c us t (below_limit c h))
]
  where
    combine-pair :
        (c : ℕ) (us : List ℕ)
        → ltb c 0x10000 ≡ false
        → c < 0x110000
        → combine ((0xD800 + (c - 0x10000) / 1024 % 1024) ∷ (0xDC00 + (c - 0x10000) % 1024) ∷ us)
          ≡ c ∷ combine us
    combine-pair c us t h = unfold combine in ground arith

combine-units : (t : Text) → all is_scalar t ≡ true → combine (flat_map utf16 t) ≡ t
unfolding all flat_map
combine-units [] h = unfold combine in refl
combine-units (c ∷ t) h =
    let (hc, ht) = and_true (is_scalar c) (all is_scalar t) h in
    combine-utf16 c (flat_map utf16 t) hc ∙ ap (λ s. c ∷ s) (combine-units t ht)

before_all-some : (us vs : List ℕ) (s : Text) → before_all us (some (vs, s)) ≡ some (us ++ vs, s)
unfolding before_all
before_all-some [] vs s = refl
before_all-some (u ∷ us) vs s = ap (before (some u)) (before_all-some us vs s)

units-escaped :
    (t s : Text)
    → all is_scalar t ≡ true
    → units plain (flat_map escape t ++ (b'"' ∷ s)) ≡ some (flat_map utf16 t, s)
unfolding all flat_map
units-escaped [] s h = unfold units in refl
units-escaped (c ∷ t) s h =
    let (hc, ht) = and_true (is_scalar c) (all is_scalar t) h in
    rw append_assoc (
      units-escape c (flat_map escape t ++ (b'"' ∷ s)) (below_limit c hc)
      ∙ ap (before_all (utf16 c)) (units-escaped t s ht)
      ∙ before_all-some (utf16 c) (flat_map utf16 t) s)

pub read_string_literal-escaped :
    (t s : Text)
    → all is_scalar t ≡ true
    → read_string_literal (flat_map escape t ++ (b'"' ∷ s)) ≡ some (t, s)
unfolding read_string_literal
read_string_literal-escaped t s h =
    rw (read_string_literal, units-escaped t s h, combine-units t h) refl

-- A reader of JSON string literals gives the text back that json.dumps wrote, and leaves what
-- follows the literal, if no surrogate stands in the text.
pub read_literal-quote_string :
    (t s : Text) → all is_scalar t ≡ true → read_literal (quote_string t ++ s) ≡ some (t, s)
unfolding read_literal quote_string
read_literal-quote_string t s h = rw append_assoc (read_string_literal-escaped t s h)
