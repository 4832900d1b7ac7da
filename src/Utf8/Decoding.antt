-- ===== src/Utf8/Decoding.antt =====
-- `bytes.decode("utf-8")`, byte by byte.
use kong_coco.Prelude.{
  ℕ, zero, suc, ◌+◌, ◌-◌, ◌*◌, ◌&&◌, Option, none, some, List, [], ◌∷◌, ◌++◌, map, Text, ltb, leb,
  nat_beq, if◌then◌else◌,
}
use kong_coco.Result.{Result, ok, err, decode_error, ◌>>=◌}

-- What is still to come of a character: how many bytes, the bounds of the next one, and the value of
-- those that were read.
pub data Pending : Type 0 where
  start : Pending
  more : (count low high value : ℕ) → Pending

-- What a byte completes: characters, and `none` for each malformed sequence.
abbrev pub Pieces : Type 0
Pieces = List (Option ℕ)

unfoldable pub lead : ℕ → Pieces × Pending
lead b =
    if ltb b 0x80
    then (some b ∷ [], start)
    else if ltb b 0xC2
    then (none ∷ [], start)
    else if ltb b 0xE0
    then ([], more 0 0x80 0xBF (b - 0xC0))
    else if ltb b 0xF0
    then (
      [],
      more 1 (if nat_beq b 0xE0 then 0xA0 else 0x80) (if nat_beq b 0xED then 0x9F else 0xBF)
          (b - 0xE0),
    )
    else if ltb b 0xF5
    then (
      [],
      more 2 (if nat_beq b 0xF0 then 0x90 else 0x80) (if nat_beq b 0xF4 then 0x8F else 0xBF)
          (b - 0xF0),
    )
    else (none ∷ [], start)

continued : ℕ → ℕ → Pieces × Pending
continued zero value = (some value ∷ [], start)
continued (suc count) value = ([], more count 0x80 0xBF value)

-- A byte that cannot go on ends the sequence before it, which is malformed, and begins anew.
unfoldable pub next : Pending → ℕ → Pieces × Pending
unfolding lead continued
next start b = lead b
next (more count low high value) b =
    if leb low b && leb b high
    then continued count (value * 64 + (b - 0x80))
    else (none ∷ (lead b).0, (lead b).1)

unfoldable pub pieces : Pending → List ℕ → Pieces
unfolding next
pieces start [] = []
pieces (more count low high value) [] = none ∷ []
pieces st (b ∷ bytes) = (next st b).0 ++ pieces (next st b).1 bytes

abbrev pub replaced : Option ℕ → ℕ
replaced none = 0xFFFD
replaced (some c) = c

-- `bytes.decode("utf-8", "replace")`
unfoldable pub decode_replace : List ℕ → Text
unfolding pieces
decode_replace bytes = map replaced (pieces start bytes)

unfoldable pub all_read : Pieces → Result Text
all_read [] = ok []
all_read (none ∷ ps) = err decode_error
all_read (some c ∷ ps) = all_read ps >>= λ s. ok (c ∷ s)

-- `bytes.decode("utf-8")`
unfoldable pub decode_strict : List ℕ → Result Text
unfolding pieces all_read
decode_strict bytes = all_read (pieces start bytes)
