-- ===== src/Url/Query.antt =====
-- A query string that is unquoted as a whole.
use mathlib.Core.List.{flat_map, append_assoc, append-nil}
use kong_coco.Prelude.{
  ℕ, ◌<◌, ◌/◌, ◌%◌, ◌≡◌, refl, ap, ◌∙◌, inl, inr, Bool, true, ◌&&◌, List, [], ◌∷◌, ◌++◌, map, Text,
  IsByte, All, all, join, arith, if◌then◌else◌, Bool-cases,
}
use kong_coco.Result.{ok, err, encode_error, ◌>>=◌}
use kong_coco.Utf8.Encoding.{is_scalar, utf8}
use kong_coco.Utf8.Decoding.{decode_replace}
use kong_coco.Utf8.RoundTrip.{decode_replace-utf8, and_true}
use kong_coco.Utf8.Ascii.{IsAscii}
use kong_coco.Utf8.Bounds.{All-append, utf8-IsByte}
use kong_coco.Url.Quoting.{
  hex_upper, quote_byte, is_unreserved, urlencode, unquote_to_bytes, unquote_from, unquote,
  plus_to_space, unquote_plus,
}
use kong_coco.Url.RoundTrip.{
  spaced, quoted, quoted_pair, is_scalar_item, shown, query, quote_pairs-eq, items_read,
}

unquote_from-ascii :
    (run s : Text)
    → All IsAscii s
    → unquote_from run s ≡ decode_replace (unquote_to_bytes (run ++ s))
unfolding unquote_from
unquote_from-ascii run [] h = rw append-nil refl
unquote_from-ascii run (c ∷ s) (hc, hs) =
    first c run s hc ∙ unquote_from-ascii (run ++ c ∷ []) s hs ∙ rw append_assoc refl
  where
    first :
        (c : ℕ) (run s : Text)
        → IsAscii c
        → unquote_from run (c ∷ s) ≡ unquote_from (run ++ c ∷ []) s
    first c run s h = ground arith

hex_upper-IsAscii : (n : ℕ) → n < 16 → IsAscii (hex_upper n)
unfolding hex_upper
hex_upper-IsAscii n h = ground arith

unreserved-IsAscii : (b : ℕ) → is_unreserved b ≡ true → IsAscii b
unfolding is_unreserved
unreserved-IsAscii b h = ground arith

plus_to_space-IsAscii : (c : ℕ) → IsAscii c → IsAscii (plus_to_space c)
unfolding plus_to_space
plus_to_space-IsAscii c h = ground arith

spaced-IsAscii : (s : Text) → All IsAscii s → All IsAscii (spaced s)
spaced-IsAscii [] h = tt
spaced-IsAscii (c ∷ s) (h, hs) = (plus_to_space-IsAscii c h, spaced-IsAscii s hs)

quote_byte-IsAscii : (b : ℕ) → IsByte b → All IsAscii (quote_byte b)
unfolding quote_byte
quote_byte-IsAscii b h =
    ground (arith, unreserved-IsAscii b, hex_upper-IsAscii (b / 16), hex_upper-IsAscii (b % 16))

quoted-IsAscii : (bytes : List ℕ) → All IsByte bytes → All IsAscii (quoted bytes)
unfolding flat_map
quoted-IsAscii [] h = tt
quoted-IsAscii (b ∷ bytes) (h, hs) =
    All-append IsAscii (quote_byte b) (quoted bytes) (quote_byte-IsAscii b h)
      (quoted-IsAscii bytes hs)

pair-IsAscii : (item : Text × Text) → is_scalar_item item ≡ true → All IsAscii (quoted_pair item)
pair-IsAscii (k, v) h =
    let (hk, hv) = and_true (all is_scalar k) (all is_scalar v) h in
    All-append IsAscii (quoted (utf8 k)) _ (quoted-IsAscii (utf8 k) (utf8-IsByte k hk))
      (omega arith, quoted-IsAscii (utf8 v) (utf8-IsByte v hv))

joined-IsAscii :
    (items : List (Text × Text))
    → all is_scalar_item items ≡ true
    → All IsAscii (join (b'&' ∷ []) (map quoted_pair items))
unfolding join all
joined-IsAscii [] h = tt
joined-IsAscii (item ∷ []) h = pair-IsAscii item (and_true (is_scalar_item item) true h).0
joined-IsAscii (item ∷ next ∷ items) h =
    let (hi, hs) = and_true (is_scalar_item item) (all is_scalar_item (next ∷ items)) h in
    All-append IsAscii (quoted_pair item) _ (pair-IsAscii item hi)
      (omega arith, joined-IsAscii (next ∷ items) hs)

pub all-append : (p : ℕ → Bool) (s t : Text) → all p (s ++ t) ≡ (all p s && all p t)
unfolding all
all-append p [] t = refl
all-append p (c ∷ s) t = ground (arith, all-append p s t)

shown-scalar : (item : Text × Text) → all is_scalar (shown item) ≡ is_scalar_item item
shown-scalar (k, v) = rw all-append (unfold all is_scalar in refl)

pub query-scalar :
    (items : List (Text × Text)) → all is_scalar (query items) ≡ all is_scalar_item items
unfolding query join all is_scalar
query-scalar [] = refl
query-scalar (item ∷ []) = rw shown-scalar (ground arith)
query-scalar (item ∷ next ∷ items) =
    rw (all-append, shown-scalar) (ap (λ t. is_scalar_item item && t) (query-scalar (next ∷ items)))

unquote_plus-quoted :
    (items : List (Text × Text))
    → all is_scalar_item items ≡ true
    → unquote_plus (join (b'&' ∷ []) (map quoted_pair items)) ≡ query items
unfolding unquote_plus unquote
unquote_plus-quoted items h =
    unquote_from-ascii [] _ (spaced-IsAscii _ (joined-IsAscii items h))
    ∙ ap decode_replace (items_read items h)
    ∙ decode_replace-utf8 (query items) (query-scalar items ∙ h)

-- Unquoting what urlencode makes of items gives the items in plain words, key=value with & between
-- them, whatever signs stand in them; where a surrogate does, urlencode raises a
-- UnicodeEncodeError.
pub unquote_plus-urlencode :
    (items : List (Text × Text))
    → (urlencode items >>= λ s. ok (unquote_plus s))
      ≡ (if all is_scalar_item items then ok (query items) else err encode_error)
unfolding urlencode
unquote_plus-urlencode items = elim (Bool-cases (all is_scalar_item items)) [
  | inl h ↦ rw (quote_pairs-eq, h) (ap ok (unquote_plus-quoted items h))
  | inr h ↦ rw (quote_pairs-eq, h) refl
]
