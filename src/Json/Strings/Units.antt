-- ===== src/Json/Strings/Units.antt =====
-- The units that the reader finds in what dumps writes for a character.
use mathlib.Core.List.{append_assoc}
use kong_coco.Prelude.{
  ℕ, suc, ◌+◌, ◌-◌, ◌*◌, ◌/◌, ◌%◌, ◌<◌, ◌≡◌, refl, sym, ap, ◌∙◌, inl, inr, true, false, some, List,
  [], ◌∷◌, ◌++◌, Text, ltb, nat_eq, ◌==◌, arith, if◌then◌else◌, Bool-cases, Option-cases,
}
use kong_coco.Url.Quoting.{is_hex, hex_value}
use kong_coco.Json.Dumps.{hex_lower, u_escape, escape_letter, is_plain, escape_code, escape}
use kong_coco.Json.Strings.{plain, hex, named_escape, Read, before, units}

-- The units of a character.
unfoldable pub utf16 : ℕ → List ℕ
utf16 c =
    if ltb c 0x10000
    then c ∷ []
    else (0xD800 + (c - 0x10000) / 1024 % 1024) ∷ (0xDC00 + (c - 0x10000) % 1024) ∷ []

is_hex-hex_lower : (n : ℕ) → n < 16 → is_hex (hex_lower n) ≡ true
unfolding is_hex hex_lower
is_hex-hex_lower n h = ground arith

hex_value-hex_lower : (n : ℕ) → n < 16 → hex_value (hex_lower n) ≡ n
unfolding hex_value hex_lower
hex_value-hex_lower n h = ground arith

units-hex :
    (left value n : ℕ) (s : Text)
    → n < 16
    → units (hex (suc left) value) (hex_lower n ∷ s) ≡ units (hex left (value * 16 + n)) s
unfolding units
units-hex left value n s h = rw (is_hex-hex_lower n h, hex_value-hex_lower n h) refl

units-last_hex :
    (value n : ℕ) (s : Text)
    → n < 16
    → units (hex 0 value) (hex_lower n ∷ s) ≡ before (some (value * 16 + n)) (units plain s)
unfolding units
units-last_hex value n s h = rw (is_hex-hex_lower n h, hex_value-hex_lower n h) refl

units-four :
    (i j k l : ℕ) (s : Text)
    → i < 16
    → j < 16
    → k < 16
    → l < 16
    → units plain (b'\\' ∷ b'u' ∷ hex_lower i ∷ hex_lower j ∷ hex_lower k ∷ hex_lower l ∷ s)
      ≡ before (some ((((0 * 16 + i) * 16 + j) * 16 + k) * 16 + l)) (units plain s)
unfolding units
units-four i j k l s hi hj hk hl =
    units-hex 2 0 i (hex_lower j ∷ hex_lower k ∷ hex_lower l ∷ s) hi
    ∙ units-hex 1 (0 * 16 + i) j (hex_lower k ∷ hex_lower l ∷ s) hj
    ∙ units-hex 0 ((0 * 16 + i) * 16 + j) k (hex_lower l ∷ s) hk
    ∙ units-last_hex (((0 * 16 + i) * 16 + j) * 16 + k) l s hl

units-u_escape :
    (n : ℕ) (s : Text)
    → n < 0x10000
    → units plain (u_escape n ++ s) ≡ before (some n) (units plain s)
unfolding u_escape
units-u_escape n s h =
    units-four (n / 4096) (n / 256 % 16) (n / 16 % 16) (n % 16) s (omega arith) (omega arith)
      (omega arith) (omega arith)
    ∙ ap (λ u. before (some u) (units plain s)) (omega arith)

units-plain :
    (c : ℕ) (s : Text) → is_plain c ≡ true → units plain (c ∷ s) ≡ before (some c) (units plain s)
unfolding units is_plain
units-plain c s h = ground arith

named_escape-escape_letter :
    (c d : ℕ) → escape_letter c ≡ some d → (named_escape d ≡ some c) × ((d == b'u') ≡ false)
unfolding named_escape escape_letter
named_escape-escape_letter c d h = ground arith

units-named_escape :
    (c d : ℕ) (s : Text)
    → escape_letter c ≡ some d
    → units plain (b'\\' ∷ d ∷ s) ≡ before (some c) (units plain s)
unfolding units
units-named_escape c d s h = let (n, k) = named_escape-escape_letter c d h in rw (k, n) refl

-- A character with a letter of its own is one unit.
small-escape_letter : (c d : ℕ) → escape_letter c ≡ some d → c < 0x10000
unfolding escape_letter
small-escape_letter c d h = ground arith

small-is_plain : (c : ℕ) → is_plain c ≡ true → c < 0x10000
unfolding is_plain
small-is_plain c h = ground arith

unfoldable pub before_all : List ℕ → Read → Read
before_all [] r = r
before_all (u ∷ us) r = before (some u) (before_all us r)

one_unit : (c : ℕ) (r : Read) → c < 0x10000 → before_all (utf16 c) r ≡ before (some c) r
unfolding before_all utf16
one_unit c r h = ground arith

units-escape_code :
    (c : ℕ) (s : Text)
    → c < 0x110000
    → units plain (escape_code c ++ s) ≡ before_all (utf16 c) (units plain s)
unfolding escape_code before_all utf16
units-escape_code c s h = elim (Bool-cases (ltb c 0x10000)) [
  | inl t ↦ rw t (units-u_escape c s (ground arith))
  | inr t ↦
      rw (t, append_assoc)
        (units-u_escape (0xD800 + (c - 0x10000) / 1024 % 1024)
            (u_escape (0xDC00 + (c - 0x10000) % 1024) ++ s) (omega arith)
          ∙ ap (before (some (0xD800 + (c - 0x10000) / 1024 % 1024)))
              (units-u_escape (0xDC00 + (c - 0x10000) % 1024) s (omega arith)))
]

pub units-escape :
    (c : ℕ) (s : Text)
    → c < 0x110000
    → units plain (escape c ++ s) ≡ before_all (utf16 c) (units plain s)
unfolding escape
units-escape c s h = elim (Bool-cases (is_plain c)) [
  | inl t ↦ rw t (units-plain c s t ∙ sym (one_unit c (units plain s) (small-is_plain c t)))
  | inr t ↦ elim (Option-cases (escape_letter c)) [
    | inl e ↦ rw (t, e) (units-escape_code c s h)
    | inr (d, e) ↦
        rw (t, e)
          (units-named_escape c d s e
            ∙ sym (one_unit c (units plain s) (small-escape_letter c d e)))
  ]
]
