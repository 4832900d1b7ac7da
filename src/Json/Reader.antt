-- ===== src/Json/Reader.antt =====
-- A reader of JSON texts in the form in which json.dumps writes them: no white space but one space
-- behind `,` and `:`, no floating-point numbers.
pub mod Steps
pub mod RoundTrip
pub mod Whole
use kong_coco.Prelude.{
  ℕ, zero, suc, ◌-◌, Bool, true, false, ◌&&◌, Option, none, some, List, [], ◌∷◌, ◌++◌, Text, codes,
  leb, nat_eq, ◌==◌, length, is_empty, if◌then◌else◌,
}
use kong_coco.Prelude.Digits.{value_from}
use kong_coco.Json.Dumps.{
  JsonValue, null, boolean, whole, negative, text, array, dict, Items, no_items, item, Fields,
  no_fields, field,
}
use kong_coco.Json.Strings.{read_string_literal, read_literal}
use kong_coco.Explain.Nginx.{after_prefix}

-- A value that was read, and the text behind it.
abbrev pub Parsed {ℓ} : Type ℓ → Type ℓ
Parsed A = Option (A × Text)

infixl 5 ◌>>=◌
abbrev pub ◌>>=◌ {ℓ κ} : {A : Type ℓ} {B : Type κ} → Option A → (A → Option B) → Option B
none >>= next = none
some a >>= next = next a

-- What the first character tells of a value.
pub data Start : Type 0 where
  quotation bracket brace minus digit letter : Start

unfoldable pub is_digit : ℕ → Bool
is_digit c = leb b'0' c && leb c b'9'

unfoldable pub start_of : ℕ → Start
unfolding is_digit
start_of c =
    if c == b'"'
    then quotation
    else if c == b'['
    then bracket
    else if c == b'{'
    then brace
    else if c == b'-'
    then minus
    else if is_digit c
    then digit
    else letter

-- The digits that lead a text.
unfoldable pub leading_digits : Text → Text × Text
unfolding is_digit
leading_digits [] = ([], [])
leading_digits (c ∷ s) =
    let rest = leading_digits s in if is_digit c then (c ∷ rest.0, rest.1) else ([], c ∷ s)

unfoldable pub read_number : Text → ℕ × Text
unfolding leading_digits value_from
read_number s = (value_from 10 0 (leading_digits s).0, (leading_digits s).1)

unfoldable pub read_word : Text → Parsed JsonValue
unfolding after_prefix
read_word s = elim (after_prefix (codes "null") s) [
  | some r ↦ some (null, r)
  | none ↦ elim (after_prefix (codes "true") s) [
    | some r ↦ some (boolean true, r)
    | none ↦ elim (after_prefix (codes "false") s) [
      | some r ↦ some (boolean false, r)
      | none ↦ none
    ]
  ]
]

unfoldable mutual
  unfolding start_of read_number read_word read_string_literal read_literal after_prefix

  -- Each value, each further item and each further field takes one step of the fuel.
  pub read_value : ℕ → Text → Parsed JsonValue
  read_value zero s = none
  read_value (suc fuel) [] = none
  read_value (suc fuel) (c ∷ s) = elim (start_of c) [
    | quotation ↦ read_string_literal s >>= λ t. some (text t.0, t.1)
    | bracket ↦ elim (after_prefix (codes "]") s) [
      | some r ↦ some (array no_items, r)
      | none ↦ read_value fuel s >>= λ v.
          read_items fuel v.1 >>= λ vs. some (array (item v.0 vs.0), vs.1)
    ]
    | brace ↦ elim (after_prefix (codes "}") s) [
      | some r ↦ some (dict no_fields, r)
      | none ↦ read_entry fuel s >>= λ fs. some (dict fs.0, fs.1)
    ]
    | minus ↦ some (negative ((read_number s).0 - 1), (read_number s).1)
    | digit ↦ some (whole (read_number (c ∷ s)).0, (read_number (c ∷ s)).1)
    | letter ↦ read_word (c ∷ s)
  ]

  -- From behind an item on, to the bracket that closes the array.
  pub read_items : ℕ → Text → Parsed Items
  read_items zero s = none
  read_items (suc fuel) s = elim (after_prefix (codes "]") s) [
    | some r ↦ some (no_items, r)
    | none ↦ after_prefix (codes ", ") s >>= λ r.
        read_value fuel r >>= λ v. read_items fuel v.1 >>= λ vs. some (item v.0 vs.0, vs.1)
  ]

  -- From a key on, to the brace that closes the object.
  pub read_entry : ℕ → Text → Parsed Fields
  read_entry zero s = none
  read_entry (suc fuel) s = read_literal s >>= λ k. after_prefix (codes ": ") k.1 >>= λ r.
      read_value fuel r >>= λ v. read_fields fuel v.1 >>= λ fs. some (field k.0 v.0 fs.0, fs.1)

  -- From behind a field on.
  pub read_fields : ℕ → Text → Parsed Fields
  read_fields zero s = none
  read_fields (suc fuel) s = elim (after_prefix (codes "}") s) [
    | some r ↦ some (no_fields, r)
    | none ↦ after_prefix (codes ", ") s >>= λ r. read_entry fuel r
  ]

-- A text as a whole: its length is fuel enough.
unfoldable pub read_json : Text → Option JsonValue
unfolding read_value
read_json s = read_value (length s) s >>= λ v. if is_empty v.1 then some v.0 else none
