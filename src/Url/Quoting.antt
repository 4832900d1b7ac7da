-- ===== src/Url/Quoting.antt =====
-- The functions of urllib.parse that the signing of parameters calls.
use mathlib.Core.List.{flat_map}
use kong_coco.Prelude.{
  ℕ, ◌+◌, ◌-◌, ◌*◌, ◌/◌, ◌%◌, Bool, ◌&&◌, ◌||◌, List, [], ◌∷◌, ◌++◌, map, Text, ltb, leb, nat_eq,
  ◌==◌, join, if◌then◌else◌,
}
use kong_coco.Result.{Result, ok, ◌>>=◌}
use kong_coco.Utf8.Encoding.{encode}
use kong_coco.Utf8.Decoding.{decode_replace}

-- The bytes that `quote` never escapes: letters, digits, `_`, `.`, `-` and `~`.
unfoldable pub is_unreserved : ℕ → Bool
is_unreserved b =
    (leb b'a' b && leb b b'z')
    || ((leb b'A' b && leb b b'Z')
        || ((leb b'0' b && leb b b'9') || (b == b'_' || (b == b'.' || (b == b'-' || b == b'~')))))

-- A digit of `%02X`.
unfoldable pub hex_upper : ℕ → ℕ
hex_upper n = if ltb n 10 then b'0' + n else b'A' + (n - 10)

-- One byte under `quote_plus(s, safe="")`.
unfoldable pub quote_byte : ℕ → Text
unfolding is_unreserved hex_upper
quote_byte b =
    if is_unreserved b
    then b ∷ []
    else if b == b' '
    then b'+' ∷ []
    else b'%' ∷ hex_upper (b / 16) ∷ hex_upper (b % 16) ∷ []

-- `quote_plus(s)`
unfoldable pub quote_plus : Text → Result Text
unfolding quote_byte encode flat_map
quote_plus s = encode s >>= λ bytes. ok (flat_map quote_byte bytes)

unfoldable pub quote_pair : Text × Text → Result Text
unfolding quote_plus
quote_pair (k, v) = do key ← quote_plus k; value ← quote_plus v; ok (key ++ (b'=' ∷ value))

unfoldable pub quote_pairs : List (Text × Text) → Result (List Text)
unfolding quote_pair
quote_pairs [] = ok []
quote_pairs (item ∷ items) = do first ← quote_pair item; rest ← quote_pairs items; ok (first ∷ rest)

-- `urlencode(items)`, over the texts that `str` makes of the values.
unfoldable pub urlencode : List (Text × Text) → Result Text
unfolding quote_pairs join
urlencode items = quote_pairs items >>= λ parts. ok (join (b'&' ∷ []) parts)

unfoldable pub is_hex : ℕ → Bool
is_hex c = (leb b'0' c && leb c b'9') || ((leb b'A' c && leb c b'F') || (leb b'a' c && leb c b'f'))

unfoldable pub hex_value : ℕ → ℕ
hex_value c = if leb c b'9' then c - b'0' else if leb c b'F' then c - b'A' + 10 else c - b'a' + 10

-- `unquote_to_bytes(s)`: a percent sign without two digits behind it stays.
unfoldable pub unquote_to_bytes : Text → List ℕ
unfolding is_hex hex_value
unquote_to_bytes [] = []
unquote_to_bytes (c ∷ []) = c ∷ []
unquote_to_bytes (c ∷ d ∷ []) = c ∷ d ∷ []
unquote_to_bytes (c ∷ d ∷ e ∷ s) =
    let plain = unquote_to_bytes (d ∷ e ∷ s) in
    let escaped = unquote_to_bytes s in
    if c == b'%' && (is_hex d && is_hex e)
    then (hex_value d * 16 + hex_value e) ∷ escaped
    else c ∷ plain

-- `unquote(s)`: each run of ASCII is unquoted and decoded, what is between the runs stays. `run` is
-- the part of the run that was read.
unfoldable pub unquote_from : Text → Text → Text
unfolding unquote_to_bytes decode_replace
unquote_from run [] = decode_replace (unquote_to_bytes run)
unquote_from run (c ∷ s) =
    let more = unquote_from (run ++ c ∷ []) s in
    let over = unquote_from [] s in
    if ltb c 0x80 then more else decode_replace (unquote_to_bytes run) ++ (c ∷ over)

unfoldable pub unquote : Text → Text
unfolding unquote_from
unquote = unquote_from []

unfoldable pub plus_to_space : ℕ → ℕ
plus_to_space c = if c == b'+' then b' ' else c

-- `unquote_plus(s)`
unfoldable pub unquote_plus : Text → Text
unfolding plus_to_space unquote
unquote_plus s = unquote (map plus_to_space s)
