-- ===== src/Utf8/RoundTrip.antt =====
-- Decoding what was encoded.
use mathlib.Core.List.{flat_map}
use kong_coco.Prelude.{
  ℕ, suc, ◌+◌, ◌-◌, ◌*◌, ◌/◌, ◌%◌, ◌<◌, ◌≤◌, ◌≡◌, refl, ap, ◌∙◌, inl, inr, Bool, true, ◌&&◌, some,
  List, [], ◌∷◌, ◌++◌, map, Text, all, arith, if◌then◌else◌, Bool-cases,
}
use kong_coco.Result.{ok, err, encode_error, ◌>>=◌}
use kong_coco.Utf8.Encoding.{is_scalar, encode_char, utf8, encode}
use kong_coco.Utf8.Decoding.{
  start, more, lead, next, pieces, decode_replace, replaced, all_read, decode_strict,
}

one : (c : ℕ) (s : List ℕ) → c < 0x80 → pieces start (c ∷ s) ≡ some c ∷ pieces start s
unfolding pieces next lead
one c s h = ground arith

pub below_limit : (c : ℕ) → is_scalar c ≡ true → c < 0x110000
unfolding is_scalar
below_limit c h = ground arith

two :
    (c : ℕ) (s : List ℕ)
    → 0x80 ≤ c
    → c < 0x800
    → pieces start ((0xC0 + c / 64) ∷ (0x80 + c % 64) ∷ s) ≡ some c ∷ pieces start s
unfolding pieces next lead
two c s h k = ground arith

three :
    (c : ℕ) (s : List ℕ)
    → 0x800 ≤ c
    → c < 0x10000
    → is_scalar c ≡ true
    → pieces start ((0xE0 + c / 4096) ∷ (0x80 + c / 64 % 64) ∷ (0x80 + c % 64) ∷ s)
      ≡ some c ∷ pieces start s
unfolding pieces next lead is_scalar
three c s h k v = ground arith

-- One byte that goes on in a sequence, and the last one.
goes_on :
    (n low high v b : ℕ) (s : List ℕ)
    → low ≤ b
    → b ≤ high
    → pieces (more (suc n) low high v) (b ∷ s) ≡ pieces (more n 0x80 0xBF (v * 64 + (b - 0x80))) s
unfolding pieces next
goes_on n low high v b s h k = ground arith

ends :
    (low high v b : ℕ) (s : List ℕ)
    → low ≤ b
    → b ≤ high
    → pieces (more 0 low high v) (b ∷ s) ≡ some (v * 64 + (b - 0x80)) ∷ pieces start s
unfolding pieces next
ends low high v b s h k = ground arith

lead_four :
    (c : ℕ) (s : List ℕ)
    → 0x10000 ≤ c
    → c < 0x110000
    → pieces start ((0xF0 + c / 262144) ∷ (0x80 + c / 4096 % 64) ∷ s)
      ≡ pieces (more 1 0x80 0xBF (c / 4096)) s
unfolding pieces next lead
lead_four c s h k = ground arith

four :
    (c : ℕ) (s : List ℕ)
    → 0x10000 ≤ c
    → c < 0x110000
    → pieces start
        ((0xF0 + c / 262144) ∷ (0x80 + c / 4096 % 64) ∷ (0x80 + c / 64 % 64) ∷ (0x80 + c % 64) ∷ s)
      ≡ some c ∷ pieces start s
four c s h k =
    lead_four c _ h k
    ∙ goes_on 0 0x80 0xBF (c / 4096) (0x80 + c / 64 % 64) _ (omega arith) (omega arith)
    ∙ ends 0x80 0xBF _ (0x80 + c % 64) s (omega arith) (omega arith)
    ∙ ap (λ x. some x ∷ pieces start s) (omega arith)

-- The bytes of a character are read back, whatever follows.
pieces-encode_char :
    (c : ℕ) (s : List ℕ)
    → is_scalar c ≡ true
    → pieces start (encode_char c ++ s) ≡ some c ∷ pieces start s
unfolding encode_char
pieces-encode_char c s v = ground (arith, two c s, three c s, four c s, one c s, below_limit c)

pub and_true : (a b : Bool) → (a && b) ≡ true → (a ≡ true) × (b ≡ true)
and_true a b h = ground arith

pieces-utf8 : (t : Text) → all is_scalar t ≡ true → pieces start (utf8 t) ≡ map some t
unfolding all flat_map
pieces-utf8 [] h = unfold pieces in refl
pieces-utf8 (c ∷ t) h =
    let (hc, ht) = and_true (is_scalar c) (all is_scalar t) h in
    pieces-encode_char c (utf8 t) hc ∙ ap (λ ps. some c ∷ ps) (pieces-utf8 t ht)

all_read-some : (t : Text) → all_read (map some t) ≡ ok t
unfolding all_read
all_read-some [] = refl
all_read-some (c ∷ t) = rw (all_read-some t)

replaced-some : (t : Text) → map replaced (map some t) ≡ t
replaced-some [] = refl
replaced-some (c ∷ t) = ap (λ s. c ∷ s) (replaced-some t)

pub decode_strict-utf8 : (t : Text) → all is_scalar t ≡ true → decode_strict (utf8 t) ≡ ok t
unfolding decode_strict
decode_strict-utf8 t h = rw (pieces-utf8 t h) (all_read-some t)

pub decode_replace-utf8 : (t : Text) → all is_scalar t ≡ true → decode_replace (utf8 t) ≡ t
unfolding decode_replace
decode_replace-utf8 t h = rw (pieces-utf8 t h) (replaced-some t)

-- Decoding what encode gives under UTF-8 returns the text; where a surrogate stands in the text,
-- encode raises a UnicodeEncodeError.
pub decode_strict-encode :
    (t : Text) → (encode t >>= decode_strict) ≡ (if all is_scalar t then ok t else err encode_error)
unfolding encode
decode_strict-encode t = elim (Bool-cases (all is_scalar t)) [
  | inl h ↦ rw h (decode_strict-utf8 t h)
  | inr h ↦ rw h refl
]
