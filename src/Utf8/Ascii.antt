-- ===== src/Utf8/Ascii.antt =====
-- On ASCII, encoding and decoding change nothing.
use mathlib.Core.List.{flat_map}
use kong_coco.Prelude.{ℕ, ◌<◌, ◌≡◌, refl, sym, ap, ◌∙◌, true, [], ◌∷◌, Text, All, all, arith}
use kong_coco.Result.{ok}
use kong_coco.Utf8.Encoding.{is_scalar, encode_char, utf8, encode}
use kong_coco.Utf8.Decoding.{decode_strict}
use kong_coco.Utf8.RoundTrip.{decode_strict-utf8}

abbrev pub IsAscii : ℕ → Type 0
IsAscii c = c < 0x80

pub utf8-ascii : (c : ℕ) (t : Text) → IsAscii c → utf8 (c ∷ t) ≡ c ∷ utf8 t
unfolding flat_map encode_char
utf8-ascii c t h = ground arith

pub ascii-scalar : (s : Text) → All IsAscii s → all is_scalar s ≡ true
unfolding all is_scalar
ascii-scalar [] h = refl
ascii-scalar (c ∷ s) (h, hs) = ground (arith, ascii-scalar s hs)

utf8-eq : (s : Text) → All IsAscii s → utf8 s ≡ s
utf8-eq [] h = unfold flat_map in refl
utf8-eq (c ∷ s) (h, hs) = utf8-ascii c s h ∙ ap (λ t. c ∷ t) (utf8-eq s hs)

pub encode-ascii : (s : Text) → All IsAscii s → encode s ≡ ok s
unfolding encode
encode-ascii s h = rw (ascii-scalar s h) (ap ok (utf8-eq s h))

pub decode_strict-ascii : (s : Text) → All IsAscii s → decode_strict s ≡ ok s
decode_strict-ascii s h =
    ap decode_strict (sym (utf8-eq s h)) ∙ decode_strict-utf8 s (ascii-scalar s h)
