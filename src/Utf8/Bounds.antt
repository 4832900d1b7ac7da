-- ===== src/Utf8/Bounds.antt =====
-- How long the bytes of a text are, and in which range.
use mathlib.Core.Path.{subst}
use mathlib.Core.List.{flat_map}
use kong_coco.Prelude.{
  ℕ, ◌*◌, ◌≤◌, ◌≡◌, true, inl, inr, List, [], ◌∷◌, ◌++◌, Text, IsByte, All, all, length,
  length-append, arith, Bool-cases,
}
use kong_coco.Result.{Error, ok, err, ok-injective}
use kong_coco.Utf8.Encoding.{is_scalar, encode_char, utf8, encode}
use kong_coco.Utf8.RoundTrip.{below_limit, and_true}

encode_char-IsByte : (c : ℕ) → is_scalar c ≡ true → All IsByte (encode_char c)
unfolding encode_char
encode_char-IsByte c h = ground (arith, below_limit c h)

length-encode_char : (c : ℕ) → (1 ≤ length (encode_char c)) × (length (encode_char c) ≤ 4)
unfolding encode_char
length-encode_char c = ground arith

pub All-append : (P : ℕ → Type 0) (s t : List ℕ) → All P s → All P t → All P (s ++ t)
All-append P [] t h k = k
All-append P (x ∷ s) t (h, hs) k = (h, All-append P s t hs k)

pub utf8-IsByte : (t : Text) → all is_scalar t ≡ true → All IsByte (utf8 t)
unfolding all flat_map
utf8-IsByte [] h = tt
utf8-IsByte (c ∷ t) h =
    let (hc, ht) = and_true (is_scalar c) (all is_scalar t) h in
    All-append IsByte (encode_char c) (utf8 t) (encode_char-IsByte c hc) (utf8-IsByte t ht)

length-utf8 : (t : Text) → (length t ≤ length (utf8 t)) × (length (utf8 t) ≤ 4 * length t)
unfolding flat_map
length-utf8 [] = omega arith
length-utf8 (c ∷ t) =
    omega (arith, length-append (encode_char c) (utf8 t), length-encode_char c, length-utf8 t)

bounded :
    (t : Text) (bytes : List ℕ)
    → all is_scalar t ≡ true
    → utf8 t ≡ bytes
    → All IsByte bytes × (length t ≤ length bytes) × (length bytes ≤ 4 * length t)
bounded t bytes h e =
    let (low, high) = length-utf8 t in
    subst (λ bs. All IsByte bs × (length t ≤ length bs) × (length bs ≤ 4 * length t)) e
      (utf8-IsByte t h, low, high)

err-ne-ok : {e : Error} {bytes : List ℕ} → err e ≡ ok bytes → ⊥
err-ne-ok h = cc

-- What encode gives is bytes, no fewer than the characters of the text and at most four for each.
pub encode-bounds :
    (t : Text) (bytes : List ℕ)
    → encode t ≡ ok bytes
    → All IsByte bytes × (length t ≤ length bytes) × (length bytes ≤ 4 * length t)
unfolding encode
encode-bounds t bytes h = elim (Bool-cases (all is_scalar t)) [
  | inl e ↦ bounded t bytes e (ok-injective (rw e at h))
  | inr e ↦ absurd (err-ne-ok (rw e at h))
]
