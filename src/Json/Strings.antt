-- ===== src/Json/Strings.antt =====
-- A reader of the string literals of JSON, as RFC 8259 describes them.
pub mod Units
pub mod RoundTrip
use mathlib.Core.List.{flat_map, append_assoc}
use kong_coco.Prelude.{
  ℕ, zero, suc, ◌+◌, ◌-◌, ◌*◌, ◌/◌, ◌%◌, ◌<◌, ◌≤◌, ◌≡◌, refl, sym, ap, ◌∙◌, inl, inr, Bool, true,
  false, ◌&&◌, ◌||◌, Option, none, some, List, [], ◌∷◌, ◌++◌, Text, ltb, leb, nat_eq, ◌==◌, all,
  All, codes, arith, if◌then◌else◌, Bool-cases, Option-cases, nat_beq_iff,
}
use kong_coco.Utf8.Encoding.{is_scalar}
use kong_coco.Utf8.RoundTrip.{and_true}
use kong_coco.Url.Quoting.{is_hex, hex_value}
use kong_coco.Json.Dumps.{
  hex_lower, u_escape, escape_letter, is_plain, escape_code, escape_char, escape, quote_string,
}

-- Where the reader stands: between characters, behind a backslash, or in the digits of `\u`, with
-- how many are left behind the next one and the value of those before it.
pub data Mode : Type 0 where
  plain escaped : Mode
  hex : (left value : ℕ) → Mode

-- What a letter behind a backslash stands for.
unfoldable pub named_escape : ℕ → Option ℕ
named_escape c =
    if (c == b'"') || ((c == b'\\') || (c == b'/'))
    then some c
    else if c == b'b'
    then some 8
    else if c == b'f'
    then some 12
    else if c == b'n'
    then some 10
    else if c == b'r'
    then some 13
    else if c == b't'
    then some 9
    else none

abbrev pub Read : Type 0
Read = Option (List ℕ × Text)

abbrev pub before : Option ℕ → Read → Read
before none r = none
before (some u) none = none
before (some u) (some (us, s)) = some (u ∷ us, s)

abbrev pub digit : ℕ → ℕ → ℕ
digit value c = value * 16 + hex_value c

-- The UTF-16 units of a literal, and what follows its closing quotation mark.
unfoldable pub units : Mode → Text → Read
unfolding named_escape is_hex hex_value
units mode [] = none
units plain (c ∷ s) =
    let rest = units plain s in
    let behind = units escaped s in
    if c == b'"'
    then some ([], s)
    else if c == b'\\'
    then behind
    else if ltb c 0x20
    then none
    else before (some c) rest
units escaped (c ∷ s) =
    let rest = units plain s in
    let digits = units (hex 3 0) s in if c == b'u' then digits else before (named_escape c) rest
units (hex zero value) (c ∷ s) =
    let rest = units plain s in if is_hex c then before (some (digit value c)) rest else none
units (hex (suc left) value) (c ∷ s) =
    let more = units (hex left (digit value c)) s in if is_hex c then more else none

-- Two units that are a pair of surrogates are one character.
unfoldable pub combine : List ℕ → Text
combine [] = []
combine (u ∷ []) = u ∷ []
combine (u ∷ w ∷ us) =
    let over = combine us in
    let rest = combine (w ∷ us) in
    if leb 0xD800 u && (ltb u 0xDC00 && (leb 0xDC00 w && ltb w 0xE000))
    then (0x10000 + (u - 0xD800) * 1024 + (w - 0xDC00)) ∷ over
    else u ∷ rest

-- The text that a literal stands for, from behind its opening quotation mark on.
unfoldable pub read_string_literal : Text → Option (Text × Text)
unfolding units combine
read_string_literal s = elim (units plain s) [
  | none ↦ none
  | some (us, rest) ↦ some (combine us, rest)
]

unfoldable pub read_literal : Text → Option (Text × Text)
unfolding read_string_literal
read_literal [] = none
read_literal (c ∷ s) = let rest = read_string_literal s in if c == b'"' then rest else none
