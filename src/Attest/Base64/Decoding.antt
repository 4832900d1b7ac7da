-- ===== src/Attest/Base64/Decoding.antt =====
-- Base64 without padding can be decoded.
use kong_coco.Prelude.{
  ℕ, ◌+◌, ◌-◌, ◌*◌, ◌/◌, ◌%◌, ◌<◌, ◌≡◌, refl, ap, ◌∙◌, false, List, [], ◌∷◌, ◌++◌, Text, ltb,
  list_eq, nat_eq, ◌==◌, All, map, arith, IsByte, if◌then◌else◌,
}
use kong_coco.Prelude.Posix.{rstrip}
use kong_coco.Attest.Base64.{letter, b64encode, bytes_to_base64}

-- The place of a letter in the alphabet.
unfoldable pub place : ℕ → ℕ
place c =
    if ltb c 44
    then 62
    else if ltb c 48
    then 63
    else if ltb c 58
    then c + 4
    else if ltb c 91
    then c - 65
    else c - 71

place-letter : (n : ℕ) → n < 64 → place (letter n) ≡ n
unfolding place letter
place-letter n h = ground arith

letter-not_padding : (n : ℕ) → n < 64 → (letter n == b'=') ≡ false
unfolding letter
letter-not_padding n h = ground arith

-- The decoder of RFC 4648 on the places of letters, without padding.
unfoldable pub decode : Text → List ℕ
unfolding place
decode (w ∷ x ∷ []) = (place w * 4 + place x / 16) ∷ []
decode (w ∷ x ∷ y ∷ []) = (place w * 4 + place x / 16) ∷ (place x % 16 * 16 + place y / 4) ∷ []
decode (w ∷ x ∷ y ∷ z ∷ s) =
    (place w * 4 + place x / 16)
    ∷ (place x % 16 * 16 + place y / 4)
    ∷ (place y % 4 * 64 + place z)
    ∷ decode s
decode _ = []

rstrip-letter : (n : ℕ) (s : Text) → n < 64 → rstrip b'=' (letter n ∷ s) ≡ letter n ∷ rstrip b'=' s
unfolding rstrip
rstrip-letter n s h = ground (arith, letter-not_padding n h)

rstrip-letters :
    (ns : List ℕ) (s : Text)
    → All (λ n. n < 64) ns
    → rstrip b'=' (map letter ns ++ s) ≡ map letter ns ++ rstrip b'=' s
rstrip-letters [] s h = refl
rstrip-letters (n ∷ ns) s (h, hs) =
    rstrip-letter n (map letter ns ++ s) h ∙ ap (λ t. letter n ∷ t) (rstrip-letters ns s hs)

-- The four letters of three bytes are read back.
decode-letters :
    (i j k l : ℕ) (s : Text)
    → i < 64
    → j < 64
    → k < 64
    → l < 64
    → decode (letter i ∷ letter j ∷ letter k ∷ letter l ∷ s)
      ≡ (i * 4 + j / 16) ∷ (j % 16 * 16 + k / 4) ∷ (k % 4 * 64 + l) ∷ decode s
unfolding decode
decode-letters i j k l s hi hj hk hl =
    rw (place-letter i hi, place-letter j hj, place-letter k hk, place-letter l hl) refl

decode-pair :
    (i j k : ℕ)
    → i < 64
    → j < 64
    → k < 64
    → decode (letter i ∷ letter j ∷ letter k ∷ []) ≡ (i * 4 + j / 16) ∷ (j % 16 * 16 + k / 4) ∷ []
unfolding decode
decode-pair i j k hi hj hk = rw (place-letter i hi, place-letter j hj, place-letter k hk) refl

decode-single :
    (i j : ℕ) → i < 64 → j < 64 → decode (letter i ∷ letter j ∷ []) ≡ (i * 4 + j / 16) ∷ []
unfolding decode
decode-single i j hi hj = rw (place-letter i hi, place-letter j hj) refl

pair : {x y a b : ℕ} → x ≡ a → y ≡ b → x ∷ y ∷ [] ≡ a ∷ b ∷ []
pair p q = cc

heads :
    {x y z a b c : ℕ} {s t : List ℕ} → x ≡ a → y ≡ b → z ≡ c → s ≡ t → x ∷ y ∷ z ∷ s ≡ a ∷ b ∷ c ∷ t
heads p q r e = cc

-- The letters of three, of two and of one byte, which the padding is taken off.
letters-three :
    (a b c : ℕ) (bytes : List ℕ)
    → IsByte a
    → IsByte b
    → IsByte c
    → bytes_to_base64 (a ∷ b ∷ c ∷ bytes)
      ≡ letter (a / 4)
        ∷ letter (a % 4 * 16 + b / 16)
        ∷ letter (b % 16 * 4 + c / 64)
        ∷ letter (c % 64)
        ∷ bytes_to_base64 bytes
unfolding bytes_to_base64
letters-three a b c bytes ha hb hc =
    rstrip-letters ((a / 4) ∷ (a % 4 * 16 + b / 16) ∷ (b % 16 * 4 + c / 64) ∷ (c % 64) ∷ [])
      (b64encode bytes) (omega arith, (omega arith, (omega arith, (omega arith, tt))))

letters-two :
    (a b : ℕ)
    → IsByte a
    → IsByte b
    → bytes_to_base64 (a ∷ b ∷ [])
      ≡ letter (a / 4) ∷ letter (a % 4 * 16 + b / 16) ∷ letter (b % 16 * 4) ∷ []
unfolding bytes_to_base64
letters-two a b ha hb =
    rstrip-letters ((a / 4) ∷ (a % 4 * 16 + b / 16) ∷ (b % 16 * 4) ∷ []) (b'=' ∷ [])
      (omega arith, (omega arith, (omega arith, tt)))

letters-one :
    (a : ℕ) → IsByte a → bytes_to_base64 (a ∷ []) ≡ letter (a / 4) ∷ letter (a % 4 * 16) ∷ []
unfolding bytes_to_base64
letters-one a ha =
    rstrip-letters ((a / 4) ∷ (a % 4 * 16) ∷ []) (b'=' ∷ b'=' ∷ []) (omega arith, (omega arith, tt))

-- Decoding the base64 text of a byte string, which the padding is taken off, gives back the byte
-- string.
pub decode-bytes_to_base64 :
    (bytes : List ℕ) → All IsByte bytes → decode (bytes_to_base64 bytes) ≡ bytes
decode-bytes_to_base64 [] h = unfold bytes_to_base64 decode in refl
decode-bytes_to_base64 (a ∷ []) (ha, _) =
    ap decode (letters-one a ha)
    ∙ decode-single (a / 4) (a % 4 * 16) (omega arith) (omega arith)
    ∙ ap (λ x. x ∷ []) (omega arith)
decode-bytes_to_base64 (a ∷ b ∷ []) (ha, (hb, _)) =
    ap decode (letters-two a b ha hb)
    ∙ decode-pair (a / 4) (a % 4 * 16 + b / 16) (b % 16 * 4) (omega arith) (omega arith)
        (omega arith)
    ∙ pair (omega arith) (omega arith)
decode-bytes_to_base64 (a ∷ b ∷ c ∷ bytes) (ha, (hb, (hc, h))) =
    ap decode (letters-three a b c bytes ha hb hc)
    ∙ decode-letters (a / 4) (a % 4 * 16 + b / 16) (b % 16 * 4 + c / 64) (c % 64) _ (omega arith)
        (omega arith) (omega arith) (omega arith)
    ∙ heads (omega arith) (omega arith) (omega arith) (decode-bytes_to_base64 bytes h)
