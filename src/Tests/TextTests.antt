-- ===== src/Tests/TextTests.antt =====
-- Texts as bytes, as query strings and as JSON: runs, and the theorems at concrete data.
use kong_coco.Prelude.{
  ℕ, ◌≡◌, refl, true, none, some, List, [], ◌∷◌, ◌++◌, Text, codes, All, all, IsByte, length, ◌≤◌,
  ◌*◌, if◌then◌else◌,
}
use kong_coco.Result.{ok, err, encode_error, decode_error, ◌>>=◌}
use kong_coco.Utf8.Encoding.{is_scalar, encode}
use kong_coco.Utf8.Decoding.{decode_strict, decode_replace}
use kong_coco.Utf8.RoundTrip.{decode_strict-encode}
use kong_coco.Utf8.Bounds.{encode-bounds}
use kong_coco.Url.Quoting.{urlencode, unquote_plus}
use kong_coco.Url.RoundTrip.{is_scalar_item, query}
use kong_coco.Url.Query.{unquote_plus-urlencode}
use kong_coco.Json.Dumps.{
  JsonValue, null, boolean, negative, text, array, dict, no_items, item, no_fields, field, dumps,
}
use kong_coco.Json.Printable.{IsPrintable, dumps-IsPrintable}
use kong_coco.Json.Reader.{read_json}
use kong_coco.Json.Reader.RoundTrip.{is_scalar_value}
use kong_coco.Json.Reader.Whole.{read_json-dumps}
use kong_coco.Attest.Base64.Decoding.{decode}
use kong_coco.Attest.Base64.Json.{json_to_base64, decode-json_to_base64}
use kong_coco.Attest.Server.{catch_all}
use kong_coco.Suites.Requirements.{read_requirements}

-- One character of each length: A, é, € and 😀.
abbrev characters : Text
characters = codes "A" ++ (0xE9 ∷ 0x20AC ∷ 0x1F600 ∷ [])

encode_lengths :
    encode characters
    ≡ ok (0x41 ∷ 0xC3 ∷ 0xA9 ∷ 0xE2 ∷ 0x82 ∷ 0xAC ∷ 0xF0 ∷ 0x9F ∷ 0x98 ∷ 0x80 ∷ [])
unfolding encode
encode_lengths = refl

encode_surrogate : encode (0xD800 ∷ []) ≡ err encode_error
unfolding encode
encode_surrogate = refl

-- An overlong form is two malformed bytes, and a form that is cut short is one.
decode_overlong : decode_replace (0xC0 ∷ 0x80 ∷ []) ≡ 0xFFFD ∷ 0xFFFD ∷ []
unfolding decode_replace
decode_overlong = refl

decode_cut_short : decode_replace (0xE2 ∷ 0x82 ∷ 0x41 ∷ []) ≡ 0xFFFD ∷ 0x41 ∷ []
unfolding decode_replace
decode_cut_short = refl

decode_surrogate : decode_strict (0xED ∷ 0xA0 ∷ 0x80 ∷ []) ≡ err decode_error
unfolding decode_strict
decode_surrogate = refl

decode_strict-encode_example :
    (encode characters >>= decode_strict)
    ≡ (if all is_scalar characters then ok characters else err encode_error)
decode_strict-encode_example = decode_strict-encode characters

abbrev encoded : List ℕ
encoded = 0x41 ∷ 0xC3 ∷ 0xA9 ∷ 0xE2 ∷ 0x82 ∷ 0xAC ∷ 0xF0 ∷ 0x9F ∷ 0x98 ∷ 0x80 ∷ []

encode-bounds_example :
    All IsByte encoded
    × (length characters ≤ length encoded)
    × (length encoded ≤ 4 * length characters)
encode-bounds_example = encode-bounds characters encoded encode_lengths

abbrev items : List (Text × Text)
items = (codes "name", codes "a b/" ++ (0xE9 ∷ [])) ∷ (codes "n+", codes "1&2") ∷ []

urlencode_items : urlencode items ≡ ok (codes "name=a+b%2F%C3%A9&n%2B=1%262")
unfolding urlencode
urlencode_items = refl

unquote_broken : unquote_plus (codes "1%+%zz%4") ≡ codes "1% %zz%4"
unfolding unquote_plus
unquote_broken = refl

unquote_plus-urlencode_example :
    (urlencode items >>= λ s. ok (unquote_plus s))
    ≡ (if all is_scalar_item items then ok (query items) else err encode_error)
unquote_plus-urlencode_example = unquote_plus-urlencode items

abbrev sample : JsonValue
sample = dict (
    field (codes "a") (array (item null (item (boolean true) (item (negative 11) no_items))))
      (field (codes "b\"") (text (0x1F600 ∷ 10 ∷ [])) no_fields))

sample_written : dumps sample ≡ codes "{\"a\": [null, true, -12], \"b\\\"\": \"\\ud83d\\ude00\\n\"}"
unfolding dumps
sample_written = refl

dumps-IsPrintable_example : All IsPrintable (dumps sample)
dumps-IsPrintable_example = dumps-IsPrintable sample

read_json-dumps_example : read_json (dumps sample) ≡ some sample
read_json-dumps_example = read_json-dumps sample (unfold is_scalar_value is_scalar in refl)

-- The reader wants what dumps writes: a space behind the comma, and nothing behind the value.
tight : read_json (codes "[1,2]") ≡ none
unfolding read_json
tight = refl

more_behind : read_json (codes "[1, 2]]") ≡ none
unfolding read_json
more_behind = refl

base64_json :
    json_to_base64 (dict (field (codes "svn") (text (codes "1")) no_fields))
    ≡ ok (codes "eyJzdm4iOiAiMSJ9")
unfolding json_to_base64
base64_json = refl

decode-json_to_base64_example :
    (s : Text) × (json_to_base64 sample ≡ ok s) × (decode s ≡ dumps sample)
decode-json_to_base64_example = decode-json_to_base64 sample

server_refuses : (catch_all (codes "PUT") (codes "/a") [] (0xFF ∷ [])).1 ≡ err decode_error
unfolding catch_all
server_refuses = refl

empty_requirements : read_requirements (λ path. ok []) (some (codes "empty")) ≡ ok []
unfolding read_requirements
empty_requirements = refl
