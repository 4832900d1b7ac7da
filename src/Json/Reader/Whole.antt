-- ===== src/Json/Reader/Whole.antt =====
-- A text that dumps wrote, read as a whole.
use mathlib.Core.List.{append-nil}
use kong_coco.Prelude.{
  ℕ, suc, ◌+◌, ◌≤◌, ◌≡◌, refl, sym, ap, ◌∙◌, true, false, some, [], ◌∷◌, ◌++◌, Text, codes, length,
  length-append, arith,
}
use kong_coco.Prelude.Digits.{show, show-cons}
use kong_coco.Json.Dumps.{
  JsonValue, null, boolean, whole, negative, text, array, dict, Items, no_items, item, Fields,
  no_fields, field, quote_string, dumps, dumps_items, dumps_fields,
}
use kong_coco.Json.Reader.{read_value, read_json}
use kong_coco.Json.Reader.Steps.{ends_number}
use kong_coco.Json.Reader.RoundTrip.{size, size_items, size_fields, is_scalar_value, value_read}

show-length : (n : ℕ) → 1 ≤ length (show n)
show-length n = let (c, s, e, _) = show-cons n in first (show n) c s e
  where
    first : (t : Text) (c : ℕ) (s : Text) → t ≡ c ∷ s → 1 ≤ length t
    first t c s e = rw e (omega arith)

-- A first part, a second one and a closing sign.
closed : (a b : Text) (c : ℕ) → length (a ++ (b ++ c ∷ [])) ≡ length a + length b + 1
closed a b c = omega (arith, length-append a (b ++ c ∷ []), length-append b (c ∷ []))

keyed : (k a : Text) → 2 + length a ≤ length (k ++ (codes ": " ++ a))
keyed k a = omega (arith, length-append k (codes ": " ++ a))

mutual
  unfolding size dumps

  size-le : (v : JsonValue) → size v ≤ length (dumps v)
  size-le null = omega arith
  size-le (boolean true) = omega arith
  size-le (boolean false) = omega arith
  size-le (whole n) = show-length n
  size-le (negative n) = omega arith
  size-le (text t) = omega arith
  size-le (array no_items) = omega arith
  size-le (array (item v vs)) =
      omega (arith, closed (dumps v) (dumps_items vs) b']', size-le v, size_items-le vs)
  size-le (dict no_fields) = omega arith
  size-le (dict (field k v fs)) = omega (
    arith,
    keyed (quote_string k) (dumps v ++ (dumps_fields fs ++ b'}' ∷ [])),
    closed (dumps v) (dumps_fields fs) b'}',
    size-le v,
    size_fields-le fs,
  )

  size_items-le : (vs : Items) → size_items vs ≤ suc (length (dumps_items vs))
  size_items-le no_items = omega arith
  size_items-le (item v vs) =
      omega (arith, length-append (dumps v) (dumps_items vs), size-le v, size_items-le vs)

  size_fields-le : (fs : Fields) → size_fields fs ≤ suc (length (dumps_fields fs))
  size_fields-le no_fields = omega arith
  size_fields-le (field k v fs) = omega (
    arith,
    keyed (quote_string k) (dumps v ++ dumps_fields fs),
    length-append (dumps v) (dumps_fields fs),
    size-le v,
    size_fields-le fs,
  )

whole_read :
    (v : JsonValue)
    → is_scalar_value v ≡ true
    → read_value (length (dumps v)) (dumps v) ≡ some (v, [])
whole_read v h =
    ap (read_value (length (dumps v))) (sym (append-nil (dumps v)))
    ∙ value_read v (length (dumps v)) [] (size-le v) h (unfold ends_number in refl)

-- Reading what json.dumps wrote gives the value back, whatever its nesting, with the length of the
-- text as fuel, if no surrogate stands in its texts and keys.
pub read_json-dumps : (v : JsonValue) → is_scalar_value v ≡ true → read_json (dumps v) ≡ some v
unfolding read_json
read_json-dumps v h = rw (whole_read v h) refl
