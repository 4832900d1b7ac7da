-- ===== src/Attest/Base64/Json.antt =====
-- `json_to_base64` as a whole.
use kong_coco.Prelude.{
  ℕ, ◌+◌, ◌/◌, ◌%◌, ◌*◌, ◌≡◌, refl, List, [], ◌∷◌, Text, codes, IsByte, All, arith,
}
use kong_coco.Prelude.Posix.{rstrip}
use kong_coco.Result.{Result, ok, ◌>>=◌}
use kong_coco.Utf8.Encoding.{encode}
use kong_coco.Utf8.Decoding.{decode_strict}
use kong_coco.Utf8.Ascii.{IsAscii, encode-ascii, decode_strict-ascii}
use kong_coco.Json.Dumps.{JsonValue, text, dict, field, no_fields, dumps}
use kong_coco.Json.Printable.{IsPrintable, dumps-IsPrintable}
use kong_coco.Attest.Base64.{letter, b64encode, bytes_to_base64}
use kong_coco.Attest.Base64.Decoding.{decode, decode-bytes_to_base64}

unfoldable pub json_to_base64 : JsonValue → Result Text
unfolding dumps encode b64encode decode_strict rstrip
json_to_base64 json_data = do
  json_bytes ← encode (dumps json_data)
  base64_string ← decode_strict (b64encode json_bytes)
  ok (rstrip b'=' base64_string)

-- The example that the script prints; `shown` is what `print` makes of the dictionary.
abbrev json_data : JsonValue
json_data = dict (
    field (codes "svn") (text (codes "1")) (
      field (codes "report_data")
        (text (
          codes
            "dGVzdAAAAAAAAAAAAAAAAAAAAAAAAAAAAAAAAAAAAAAAAAAAAAAAAAAAAAAAAAAAAAAAAAAAAAAAAAAAAAAAAA=="))
        no_fields))

unfoldable pub base64_script : (JsonValue → Text) → Result (List Text)
unfolding json_to_base64
base64_script shown = do
  base64_encoded ← json_to_base64 json_data
  ok (codes "原始 JSON 数据:" ∷ shown json_data ∷ codes "Base64 编码后的字符串（不使用填充）:" ∷ base64_encoded ∷ [])

letter-IsAscii : (n : ℕ) → IsAscii (letter n)
unfolding letter
letter-IsAscii n = ground arith

pub b64encode-IsAscii : (bytes : List ℕ) → All IsAscii (b64encode bytes)
unfolding b64encode
b64encode-IsAscii [] = tt
b64encode-IsAscii (a ∷ []) =
    (letter-IsAscii (a / 4), (letter-IsAscii (a % 4 * 16), (omega arith, (omega arith, tt))))
b64encode-IsAscii (a ∷ b ∷ []) = (
  letter-IsAscii (a / 4),
  (letter-IsAscii (a % 4 * 16 + b / 16), (letter-IsAscii (b % 16 * 4), (omega arith, tt))),
)
b64encode-IsAscii (a ∷ b ∷ c ∷ bytes) = (
  letter-IsAscii (a / 4),
  (
    letter-IsAscii (a % 4 * 16 + b / 16),
    (letter-IsAscii (b % 16 * 4 + c / 64), (letter-IsAscii (c % 64), b64encode-IsAscii bytes)),
  ),
)

printable-IsAscii : (s : Text) → All IsPrintable s → All IsAscii s
printable-IsAscii [] h = tt
printable-IsAscii (c ∷ s) ((low, high), h) = (omega arith, printable-IsAscii s h)

ascii-IsByte : (s : Text) → All IsAscii s → All IsByte s
ascii-IsByte [] h = tt
ascii-IsByte (c ∷ s) (h, hs) = (omega arith, ascii-IsByte s hs)

-- What json_to_base64 returns: no step of it raises.
json_to_base64-eq : (v : JsonValue) → json_to_base64 v ≡ ok (bytes_to_base64 (dumps v))
unfolding json_to_base64 bytes_to_base64
json_to_base64-eq v =
    let h = printable-IsAscii (dumps v) (dumps-IsPrintable v) in
    rw
      (
        encode-ascii (dumps v) h,
        decode_strict-ascii (b64encode (dumps v)) (b64encode-IsAscii (dumps v)),
      )
      refl

-- json_to_base64 returns for every value, and decoding what it returns gives the JSON text.
pub decode-json_to_base64 :
    (v : JsonValue) → (s : Text) × (json_to_base64 v ≡ ok s) × (decode s ≡ dumps v)
decode-json_to_base64 v = (
  bytes_to_base64 (dumps v),
  json_to_base64-eq v,
  decode-bytes_to_base64 (dumps v)
      (ascii-IsByte (dumps v) (printable-IsAscii (dumps v) (dumps-IsPrintable v))),
)
