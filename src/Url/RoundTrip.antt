-- ===== src/Url/RoundTrip.antt =====
-- Unquoting what was quoted.
use mathlib.Core.List.{flat_map, append_assoc, append-nil}
use kong_coco.Prelude.{
  ℕ, ◌+◌, ◌*◌, ◌/◌, ◌%◌, ◌<◌, ◌≡◌, refl, sym, ap, ◌∙◌, inl, inr, Bool, true, false, ◌&&◌, List, [],
  ◌∷◌, ◌++◌, map, Text, IsByte, nat_eq, ◌==◌, All, all, join, arith, if◌then◌else◌, Bool-cases,
  nat_beq_iff,
}
use kong_coco.Result.{ok, err, encode_error}
use kong_coco.Utf8.Encoding.{is_scalar, utf8, encode}
use kong_coco.Utf8.RoundTrip.{and_true}
use kong_coco.Utf8.Ascii.{utf8-ascii}
use kong_coco.Utf8.Bounds.{utf8-IsByte}
use kong_coco.Url.Quoting.{
  is_unreserved, hex_upper, quote_byte, quote_plus, quote_pair, quote_pairs, is_hex, hex_value,
  unquote_to_bytes, plus_to_space,
}

unquote_to_bytes-plain :
    (c : ℕ) (s : Text) → (c == b'%') ≡ false → unquote_to_bytes (c ∷ s) ≡ c ∷ unquote_to_bytes s
unfolding unquote_to_bytes
unquote_to_bytes-plain c [] h = refl
unquote_to_bytes-plain c (d ∷ []) h = refl
unquote_to_bytes-plain c (d ∷ e ∷ s) h = rw h

hex_value-hex_upper : (n : ℕ) → n < 16 → hex_value (hex_upper n) ≡ n
unfolding hex_value hex_upper
hex_value-hex_upper n h = ground arith

is_hex-hex_upper : (n : ℕ) → n < 16 → is_hex (hex_upper n) ≡ true
unfolding is_hex hex_upper
is_hex-hex_upper n h = ground arith

hex_upper-plain : (n : ℕ) → n < 16 → plus_to_space (hex_upper n) ≡ hex_upper n
unfolding plus_to_space hex_upper
hex_upper-plain n h = ground arith

unquote_to_bytes-escaped :
    (i j : ℕ) (s : Text)
    → i < 16
    → j < 16
    → unquote_to_bytes (b'%' ∷ hex_upper i ∷ hex_upper j ∷ s) ≡ (i * 16 + j) ∷ unquote_to_bytes s
unfolding unquote_to_bytes
unquote_to_bytes-escaped i j s hi hj =
    rw
      (
        is_hex-hex_upper i hi,
        is_hex-hex_upper j hj,
        hex_value-hex_upper i hi,
        hex_value-hex_upper j hj,
      )
      refl

-- What is not escaped is no percent sign, and no plus sign that stands for a space.
unreserved-plain : (b : ℕ) → is_unreserved b ≡ true → ((b == b'%') ≡ false) × (plus_to_space b ≡ b)
unfolding is_unreserved plus_to_space
unreserved-plain b h = ground arith

abbrev pub spaced : Text → Text
spaced = map plus_to_space

plus_read : (s : Text) → unquote_to_bytes (plus_to_space b'+' ∷ s) ≡ b' ' ∷ unquote_to_bytes s
plus_read s = unfold plus_to_space in unquote_to_bytes-plain b' ' s refl

percent_read :
    (i j : ℕ) (s : Text)
    → i < 16
    → j < 16
    → unquote_to_bytes (plus_to_space b'%' ∷ hex_upper i ∷ hex_upper j ∷ s)
      ≡ (i * 16 + j) ∷ unquote_to_bytes s
percent_read i j s hi hj = unfold plus_to_space in unquote_to_bytes-escaped i j s hi hj

unquote_to_bytes-quote_byte :
    (b : ℕ) (s : Text)
    → IsByte b
    → unquote_to_bytes (spaced (quote_byte b) ++ s) ≡ b ∷ unquote_to_bytes s
unfolding quote_byte
unquote_to_bytes-quote_byte b s h = elim (Bool-cases (is_unreserved b)) [
  | inl t ↦ let (p, q) = unreserved-plain b t in rw (t, q) (unquote_to_bytes-plain b s p)
  | inr t ↦ elim (Bool-cases (b == b' ')) [
    | inl u ↦
        rw (t, u) (plus_read s ∙ ap (λ c. c ∷ unquote_to_bytes s) (sym ((nat_beq_iff b b' ').0 u)))
    | inr u ↦
        rw (t, u, hex_upper-plain (b / 16) (omega arith), hex_upper-plain (b % 16) (omega arith))
          (percent_read (b / 16) (b % 16) s (omega arith) (omega arith)
            ∙ ap (λ c. c ∷ unquote_to_bytes s) (omega arith))
  ]
]

-- The bytes of a text as `quote_plus` writes them.
abbrev pub quoted : List ℕ → Text
quoted = flat_map quote_byte

map-append : (s t : Text) → spaced (s ++ t) ≡ spaced s ++ spaced t
map-append [] t = refl
map-append (c ∷ s) t = ap (λ r. plus_to_space c ∷ r) (map-append s t)

unquote_to_bytes-quoted :
    (bytes : List ℕ) (s : Text)
    → All IsByte bytes
    → unquote_to_bytes (spaced (quoted bytes) ++ s) ≡ bytes ++ unquote_to_bytes s
unfolding flat_map
unquote_to_bytes-quoted [] s h = refl
unquote_to_bytes-quoted (b ∷ bytes) s (h, hs) =
    rw (map-append (quote_byte b) (quoted bytes), append_assoc)
      (unquote_to_bytes-quote_byte b (spaced (quoted bytes) ++ s) h
        ∙ ap (λ r. b ∷ r) (unquote_to_bytes-quoted bytes s hs))

utf8-append : (s t : Text) → utf8 (s ++ t) ≡ utf8 s ++ utf8 t
unfolding flat_map
utf8-append [] t = refl
utf8-append (c ∷ s) t = rw (utf8-append s t, append_assoc)

abbrev pub is_scalar_item : Text × Text → Bool
is_scalar_item (k, v) = all is_scalar k && all is_scalar v

-- A key and its value in plain words, and as `urlencode` writes them.
abbrev pub shown : Text × Text → Text
shown (k, v) = k ++ (b'=' ∷ v)

abbrev pub quoted_pair : Text × Text → Text
quoted_pair (k, v) = quoted (utf8 k) ++ (b'=' ∷ quoted (utf8 v))

-- The items with `&` between them, in plain words.
unfoldable pub query : List (Text × Text) → Text
unfolding join
query items = join (b'&' ∷ []) (map shown items)

sign_read :
    (c : ℕ) (s : Text)
    → (plus_to_space c ≡ c)
    → (c == b'%') ≡ false
    → unquote_to_bytes (plus_to_space c ∷ s) ≡ c ∷ unquote_to_bytes s
sign_read c s h k = rw h (unquote_to_bytes-plain c s k)

equals_read : (s : Text) → unquote_to_bytes (plus_to_space b'=' ∷ s) ≡ b'=' ∷ unquote_to_bytes s
equals_read s = sign_read b'=' s (unfold plus_to_space in refl) refl

ampersand_read : (s : Text) → unquote_to_bytes (plus_to_space b'&' ∷ s) ≡ b'&' ∷ unquote_to_bytes s
ampersand_read s = sign_read b'&' s (unfold plus_to_space in refl) refl

pair_read :
    (item : Text × Text) (s : Text)
    → is_scalar_item item ≡ true
    → unquote_to_bytes (spaced (quoted_pair item) ++ s) ≡ utf8 (shown item) ++ unquote_to_bytes s
pair_read (k, v) s h =
    let (hk, hv) = and_true (all is_scalar k) (all is_scalar v) h in
    rw
      (
        map-append (quoted (utf8 k)) (b'=' ∷ quoted (utf8 v)),
        utf8-append k (b'=' ∷ v),
        utf8-ascii b'=' v (omega arith),
        append_assoc,
        append_assoc (utf8 k),
      )
      (unquote_to_bytes-quoted (utf8 k) _ (utf8-IsByte k hk)
        ∙ ap (λ r. utf8 k ++ r) (equals_read (spaced (quoted (utf8 v)) ++ s))
        ∙ ap (λ r. utf8 k ++ (b'=' ∷ r)) (unquote_to_bytes-quoted (utf8 v) s (utf8-IsByte v hv)))

shown_first :
    (item : Text × Text) (rest : Text)
    → utf8 (shown item ++ (b'&' ∷ rest)) ≡ utf8 (shown item) ++ (b'&' ∷ utf8 rest)
shown_first item rest =
    rw (utf8-append (shown item) (b'&' ∷ rest), utf8-ascii b'&' rest (omega arith)) refl

pub items_read :
    (items : List (Text × Text))
    → all is_scalar_item items ≡ true
    → unquote_to_bytes (spaced (join (b'&' ∷ []) (map quoted_pair items))) ≡ utf8 (query items)
unfolding query join all
items_read [] h = unfold unquote_to_bytes flat_map in refl
items_read (item ∷ []) h =
    let (hi, _) = and_true (is_scalar_item item) true h in
    rw append-nil at (pair_read item [] hi)
    ∙ unfold unquote_to_bytes in append-nil (utf8 (shown item))
items_read (item ∷ next ∷ items) h =
    let (hi, hs) = and_true (is_scalar_item item) (all is_scalar_item (next ∷ items)) h in
    rw map-append (
      pair_read item _ hi
      ∙ ap (λ r. utf8 (shown item) ++ r)
          (ampersand_read _ ∙ ap (λ r. b'&' ∷ r) (items_read (next ∷ items) hs))
      ∙ sym (shown_first item (query (next ∷ items))))

quote_plus-eq :
    (t : Text) → quote_plus t ≡ (if all is_scalar t then ok (quoted (utf8 t)) else err encode_error)
unfolding quote_plus encode
quote_plus-eq t = ground arith

quote_pair-eq :
    (item : Text × Text)
    → quote_pair item ≡ (if is_scalar_item item then ok (quoted_pair item) else err encode_error)
unfolding quote_pair
quote_pair-eq (k, v) = ground (arith, quote_plus-eq k, quote_plus-eq v)

pub quote_pairs-eq :
    (items : List (Text × Text))
    → quote_pairs items
      ≡ (if all is_scalar_item items then ok (map quoted_pair items) else err encode_error)
unfolding quote_pairs all
quote_pairs-eq [] = refl
quote_pairs-eq (item ∷ items) = ground (arith, quote_pair-eq item, quote_pairs-eq items)
