-- ===== src/Json/Dumps.antt =====
-- `json.dumps(value)` with its default arguments: non-ASCII characters are escaped, and `, ` and
-- `: ` separate. Floating-point numbers are left out, and keys are texts.
use mathlib.Core.List.{flat_map}
use kong_coco.Prelude.{
  ℕ, suc, ◌+◌, ◌-◌, ◌/◌, ◌%◌, Bool, true, false, not, ◌&&◌, ◌||◌, Option, none, some, [], ◌∷◌, ◌++◌,
  Text, ltb, leb, nat_eq, ◌==◌, codes, if◌then◌else◌,
}
use kong_coco.Prelude.Digits.{show}

-- `negative n` is -(n + 1).
mutual
  pub data JsonValue : Type 0 where
    null : JsonValue
    boolean : Bool → JsonValue
    whole negative : ℕ → JsonValue
    text : Text → JsonValue
    array : Items → JsonValue
    dict : Fields → JsonValue

  pub data Items : Type 0 where
    no_items : Items
    item : JsonValue → Items → Items

  pub data Fields : Type 0 where
    no_fields : Fields
    field : Text → JsonValue → Fields → Fields

-- A digit of `%04x`.
unfoldable pub hex_lower : ℕ → ℕ
hex_lower n = if ltb n 10 then b'0' + n else b'a' + (n - 10)

-- `"\\u%04x" % n`
unfoldable pub u_escape : ℕ → Text
unfolding hex_lower
u_escape n =
    b'\\'
    ∷ b'u'
    ∷ hex_lower (n / 4096)
    ∷ hex_lower (n / 256 % 16)
    ∷ hex_lower (n / 16 % 16)
    ∷ hex_lower (n % 16)
    ∷ []

-- The characters with an escape of their own, and its letter.
unfoldable pub escape_letter : ℕ → Option ℕ
escape_letter c =
    if (c == b'"') || (c == b'\\')
    then some c
    else if c == 8
    then some b'b'
    else if c == 9
    then some b't'
    else if c == 10
    then some b'n'
    else if c == 12
    then some b'f'
    else if c == 13
    then some b'r'
    else none

-- The characters that are not escaped.
unfoldable pub is_plain : ℕ → Bool
is_plain c = (leb 0x20 c && leb c 0x7E) && (not (c == b'"') && not (c == b'\\'))

-- The characters past the first 65536 become a pair of surrogates.
unfoldable pub escape_code : ℕ → Text
unfolding u_escape
escape_code c =
    if ltb c 0x10000
    then u_escape c
    else u_escape (0xD800 + (c - 0x10000) / 1024 % 1024) ++ u_escape (0xDC00 + (c - 0x10000) % 1024)

unfoldable pub escape_char : ℕ → Option ℕ → Text
unfolding escape_code
escape_char c none = escape_code c
escape_char c (some d) = b'\\' ∷ d ∷ []

-- One character of a string.
unfoldable pub escape : ℕ → Text
unfolding is_plain escape_letter escape_char
escape c = if is_plain c then c ∷ [] else escape_char c (escape_letter c)

unfoldable pub quote_string : Text → Text
unfolding escape flat_map
quote_string s = b'"' ∷ (flat_map escape s ++ b'"' ∷ [])

unfoldable pub separated : Text → Text
separated s = b',' ∷ b' ' ∷ s

unfoldable mutual
  unfolding quote_string separated show

  pub dumps : JsonValue → Text
  dumps null = codes "null"
  dumps (boolean true) = codes "true"
  dumps (boolean false) = codes "false"
  dumps (whole n) = show n
  dumps (negative n) = b'-' ∷ show (suc n)
  dumps (text s) = quote_string s
  dumps (array no_items) = codes "[]"
  dumps (array (item v vs)) = b'[' ∷ (dumps v ++ (dumps_items vs ++ b']' ∷ []))
  dumps (dict no_fields) = codes "{}"
  dumps (dict (field k v fs)) =
      b'{' ∷ (quote_string k ++ (codes ": " ++ (dumps v ++ (dumps_fields fs ++ b'}' ∷ []))))

  pub dumps_items : Items → Text
  dumps_items no_items = []
  dumps_items (item v vs) = separated (dumps v ++ dumps_items vs)

  pub dumps_fields : Fields → Text
  dumps_fields no_fields = []
  dumps_fields (field k v fs) =
      separated (quote_string k ++ (codes ": " ++ (dumps v ++ dumps_fields fs)))
