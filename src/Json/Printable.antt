-- ===== src/Json/Printable.antt =====
-- What dumps writes is printable ASCII.
use mathlib.Core.List.{flat_map}
use kong_coco.Prelude.{
  ℕ, suc, ◌+◌, ◌-◌, ◌/◌, ◌%◌, ◌<◌, ◌≤◌, ◌≡◌, true, false, inl, inr, some, [], ◌∷◌, ◌++◌, Text, ltb,
  All, codes, arith, Bool-cases, Option-cases,
}
use kong_coco.Prelude.Digits.{show, IsDigit, show-IsDigit}
use kong_coco.Utf8.Bounds.{All-append}
use kong_coco.Json.Dumps.{
  JsonValue, null, boolean, whole, negative, text, array, dict, Items, no_items, item, Fields,
  no_fields, field, hex_lower, u_escape, escape_letter, is_plain, escape_code, escape_char, escape,
  quote_string, separated, dumps, dumps_items, dumps_fields,
}

abbrev pub IsPrintable : ℕ → Type 0
IsPrintable c = (0x20 ≤ c) × (c ≤ 0x7E)

hex_lower-IsPrintable : (n : ℕ) → n < 16 → IsPrintable (hex_lower n)
unfolding hex_lower
hex_lower-IsPrintable n h = ground arith

-- A code unit, of which four digits are written.
u_escape-IsPrintable : (n : ℕ) → n < 0x10000 → All IsPrintable (u_escape n)
unfolding u_escape
u_escape-IsPrintable n h = (
  (omega arith, omega arith),
  (
    (omega arith, omega arith),
    (
      hex_lower-IsPrintable (n / 4096) (omega arith),
      (
        hex_lower-IsPrintable (n / 256 % 16) (omega arith),
        (
          hex_lower-IsPrintable (n / 16 % 16) (omega arith),
          (hex_lower-IsPrintable (n % 16) (omega arith), tt),
        ),
      ),
    ),
  ),
)

escape_code-IsPrintable : (c : ℕ) → All IsPrintable (escape_code c)
unfolding escape_code
escape_code-IsPrintable c = elim (Bool-cases (ltb c 0x10000)) [
  | inl t ↦ rw t (u_escape-IsPrintable c (ground arith))
  | inr t ↦ rw t (
      pair (0xD800 + (c - 0x10000) / 1024 % 1024) (0xDC00 + (c - 0x10000) % 1024) (omega arith)
        (omega arith))
]
  where
    pair : (n m : ℕ) → n < 0x10000 → m < 0x10000 → All IsPrintable (u_escape n ++ u_escape m)
    pair n m hn hm =
        All-append IsPrintable (u_escape n) (u_escape m) (u_escape-IsPrintable n hn)
          (u_escape-IsPrintable m hm)

escape_letter-IsPrintable : (c d : ℕ) → escape_letter c ≡ some d → IsPrintable d
unfolding escape_letter
escape_letter-IsPrintable c d h = ground arith

is_plain-IsPrintable : (c : ℕ) → is_plain c ≡ true → IsPrintable c
unfolding is_plain
is_plain-IsPrintable c h = ground arith

escape-IsPrintable : (c : ℕ) → All IsPrintable (escape c)
unfolding escape escape_char
escape-IsPrintable c = elim (Bool-cases (is_plain c)) [
  | inl t ↦ rw t (is_plain-IsPrintable c t, tt)
  | inr t ↦ elim (Option-cases (escape_letter c)) [
    | inl e ↦ rw (t, e) (escape_code-IsPrintable c)
    | inr (d, e) ↦ rw (t, e) ((omega arith, omega arith), (escape_letter-IsPrintable c d e, tt))
  ]
]

escaped-IsPrintable : (s : Text) → All IsPrintable (flat_map escape s)
unfolding flat_map
escaped-IsPrintable [] = tt
escaped-IsPrintable (c ∷ s) =
    All-append IsPrintable (escape c) (flat_map escape s) (escape-IsPrintable c)
      (escaped-IsPrintable s)

quote_string-IsPrintable : (s : Text) → All IsPrintable (quote_string s)
unfolding quote_string
quote_string-IsPrintable s = (
  (omega arith, omega arith),
  All-append IsPrintable (flat_map escape s) _ (escaped-IsPrintable s)
      ((omega arith, omega arith), tt),
)

show-IsPrintable : (n : ℕ) → All IsPrintable (show n)
show-IsPrintable n = weaken (show n) (show-IsDigit n)
  where
    weaken : (s : Text) → All IsDigit s → All IsPrintable s
    weaken [] h = tt
    weaken (c ∷ s) ((low, high), h) = ((omega arith, omega arith), weaken s h)

separated-IsPrintable : (s : Text) → All IsPrintable s → All IsPrintable (separated s)
unfolding separated
separated-IsPrintable s h = ground arith

-- A key, its value and what follows.
entry-IsPrintable :
    (k v rest : Text)
    → All IsPrintable v
    → All IsPrintable rest
    → All IsPrintable (quote_string k ++ (codes ": " ++ (v ++ rest)))
entry-IsPrintable k v rest h hs =
    All-append IsPrintable (quote_string k) _ (quote_string-IsPrintable k)
      ((omega arith, omega arith), ((omega arith, omega arith), All-append IsPrintable v rest h hs))

mutual
  unfolding dumps

  dumps_value-IsPrintable : (v : JsonValue) → All IsPrintable (dumps v)
  dumps_value-IsPrintable null = ground arith
  dumps_value-IsPrintable (boolean true) = ground arith
  dumps_value-IsPrintable (boolean false) = ground arith
  dumps_value-IsPrintable (whole n) = show-IsPrintable n
  dumps_value-IsPrintable (negative n) = ((omega arith, omega arith), show-IsPrintable (suc n))
  dumps_value-IsPrintable (text s) = quote_string-IsPrintable s
  dumps_value-IsPrintable (array no_items) = ground arith
  dumps_value-IsPrintable (array (item v vs)) = (
    (omega arith, omega arith),
    All-append IsPrintable (dumps v) _ (dumps_value-IsPrintable v)
        (All-append IsPrintable (dumps_items vs) _ (dumps_items-IsPrintable vs) (ground arith)),
  )
  dumps_value-IsPrintable (dict no_fields) = ground arith
  dumps_value-IsPrintable (dict (field k v fs)) = (
    (omega arith, omega arith),
    entry-IsPrintable k (dumps v) _ (dumps_value-IsPrintable v)
        (All-append IsPrintable (dumps_fields fs) _ (dumps_fields-IsPrintable fs) (ground arith)),
  )

  dumps_items-IsPrintable : (vs : Items) → All IsPrintable (dumps_items vs)
  dumps_items-IsPrintable no_items = tt
  dumps_items-IsPrintable (item v vs) =
      separated-IsPrintable (dumps v ++ dumps_items vs) (
        All-append IsPrintable (dumps v) _ (dumps_value-IsPrintable v) (dumps_items-IsPrintable vs))

  dumps_fields-IsPrintable : (fs : Fields) → All IsPrintable (dumps_fields fs)
  dumps_fields-IsPrintable no_fields = tt
  dumps_fields-IsPrintable (field k v fs) =
      separated-IsPrintable (quote_string k ++ (codes ": " ++ (dumps v ++ dumps_fields fs))) (
        entry-IsPrintable k (dumps v) (dumps_fields fs) (dumps_value-IsPrintable v)
          (dumps_fields-IsPrintable fs))

-- Every character that json.dumps writes lies between the space and the tilde, whatever texts the
-- value holds.
pub dumps-IsPrintable : (v : JsonValue) → All IsPrintable (dumps v)
dumps-IsPrintable v = dumps_value-IsPrintable v
