-- ===== src/Utf8/Encoding.antt =====
-- `str.encode("utf-8")`
use mathlib.Core.List.{flat_map}
use kong_coco.Prelude.{
  ℕ, ◌+◌, ◌/◌, ◌%◌, Bool, ◌&&◌, ◌||◌, List, [], ◌∷◌, Text, ltb, leb, all, if◌then◌else◌,
}
use kong_coco.Result.{Result, ok, err, encode_error}

-- A code point that stands for a character: all but the surrogates.
unfoldable pub is_scalar : ℕ → Bool
is_scalar c = ltb c 0xD800 || (leb 0xE000 c && ltb c 0x110000)

-- The bytes of one character.
unfoldable pub encode_char : ℕ → List ℕ
encode_char c =
    if ltb c 0x80
    then c ∷ []
    else if ltb c 0x800
    then (0xC0 + c / 64) ∷ (0x80 + c % 64) ∷ []
    else if ltb c 0x10000
    then (0xE0 + c / 4096) ∷ (0x80 + c / 64 % 64) ∷ (0x80 + c % 64) ∷ []
    else (0xF0 + c / 262144) ∷ (0x80 + c / 4096 % 64) ∷ (0x80 + c / 64 % 64) ∷ (0x80 + c % 64) ∷ []

abbrev pub utf8 : Text → List ℕ
utf8 = flat_map encode_char

-- `s.encode("utf-8")`: a surrogate cannot be encoded.
unfoldable pub encode : Text → Result (List ℕ)
unfolding is_scalar encode_char all flat_map
encode s = if all is_scalar s then ok (utf8 s) else err encode_error
