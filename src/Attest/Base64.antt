-- ===== src/Attest/Base64.antt =====
-- `json_to_base64` in mybase64.py, from the bytes of the JSON text on.
pub mod Decoding
pub mod Json
use kong_coco.Prelude.{
  ℕ, ◌+◌, ◌-◌, ◌*◌, ◌/◌, ◌%◌, Bool, List, [], ◌∷◌, ◌++◌, Text, ltb, nat_beq, if◌then◌else◌,
}
use kong_coco.Prelude.Posix.{rstrip}

-- The alphabet: capital letters, small letters, digits, `+` and `/`.
unfoldable pub letter : ℕ → ℕ
letter n =
    if ltb n 26
    then n + 65
    else if ltb n 52
    then n + 71
    else if ltb n 62
    then n - 4
    else if nat_beq n 62
    then b'+'
    else b'/'

-- `base64.b64encode(bytes)`: three bytes give four letters, and `=` fills up the last four.
unfoldable pub b64encode : List ℕ → Text
unfolding letter
b64encode [] = []
b64encode (a ∷ []) = letter (a / 4) ∷ letter (a % 4 * 16) ∷ b'=' ∷ b'=' ∷ []
b64encode (a ∷ b ∷ []) =
    letter (a / 4) ∷ letter (a % 4 * 16 + b / 16) ∷ letter (b % 16 * 4) ∷ b'=' ∷ []
b64encode (a ∷ b ∷ c ∷ bytes) =
    letter (a / 4)
    ∷ letter (a % 4 * 16 + b / 16)
    ∷ letter (b % 16 * 4 + c / 64)
    ∷ letter (c % 64)
    ∷ b64encode bytes

-- `json_to_base64`, without the padding
unfoldable pub bytes_to_base64 : List ℕ → Text
unfolding rstrip b64encode
bytes_to_base64 bytes = rstrip b'=' (b64encode bytes)
