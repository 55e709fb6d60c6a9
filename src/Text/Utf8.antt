-- ===== src/Text/Utf8.antt =====
-- The characters of a text and its UTF-8 form: `as_bytes`, `String::from_utf8`, `str::len`.
use Prim.Native.Char.{code}
use Prim.Native.String.{String}
use sqnr.Base.{
  ℕ, zero, suc, ◌+◌, ◌-◌, ◌*◌, ◌/◌, ◌%◌, ◌≤◌, ◌<◌, ◌⊎◌, Bool, ◌&&◌, ◌||◌, Option, none, some, List,
  [], ◌∷◌, ◌++◌, ltb, leb, if◌then◌else◌, length, All,
}

abbrev pub Text : Type 0
Text = List ℕ

-- A literal as a text.
abbrev pub codes : String → Text
codes String.[] = []
codes (String.◌∷◌ c s) = code c ∷ codes s

-- A Unicode scalar value: below 0x110000 and no surrogate.
abbrev pub IsScalar : ℕ → Type 0
IsScalar c = (c < 0x110000) × ((c < 0xd800) ⊎ (0xe000 ≤ c))

-- What holds of every Rust `String`.
abbrev pub IsText : Text → Type 0
IsText = All IsScalar

unfoldable pub encode_char : ℕ → List ℕ
encode_char c =
    if ltb c 0x80
    then c ∷ []
    else if ltb c 0x800
    then (0xc0 + c / 64) ∷ (0x80 + c % 64) ∷ []
    else if ltb c 0x10000
    then (0xe0 + c / 4096) ∷ (0x80 + c / 64 % 64) ∷ (0x80 + c % 64) ∷ []
    else (0xf0 + c / 262144) ∷ (0x80 + c / 4096 % 64) ∷ (0x80 + c / 64 % 64) ∷ (0x80 + c % 64) ∷ []

unfoldable pub as_bytes : Text → List ℕ
unfolding encode_char
as_bytes [] = []
as_bytes (c ∷ s) = encode_char c ++ as_bytes s

-- `str::len` counts bytes.
unfoldable pub len : Text → ℕ
unfolding as_bytes
len s = length (as_bytes s)

unfoldable pub is_continuation : ℕ → Bool
is_continuation b = leb 0x80 b && ltb b 0xc0

unfoldable pub two_bytes : ℕ → List ℕ → Option (ℕ × List ℕ)
unfolding is_continuation
two_bytes a (b ∷ r) = if is_continuation b then some ((a - 0xc0) * 64 + (b - 0x80), r) else none
two_bytes a _ = none

unfoldable pub three_bytes : ℕ → List ℕ → Option (ℕ × List ℕ)
unfolding is_continuation
three_bytes a (b ∷ c ∷ r) =
    let v = (a - 0xe0) * 4096 + (b - 0x80) * 64 + (c - 0x80) in
    if is_continuation b && (is_continuation c && (leb 0x800 v && (ltb v 0xd800 || leb 0xe000 v)))
    then some (v, r)
    else none
three_bytes a _ = none

unfoldable pub four_bytes : ℕ → List ℕ → Option (ℕ × List ℕ)
unfolding is_continuation
four_bytes a (b ∷ c ∷ d ∷ r) =
    let v = (a - 0xf0) * 262144 + (b - 0x80) * 4096 + (c - 0x80) * 64 + (d - 0x80) in
    if is_continuation b
      && (is_continuation c && (is_continuation d && (leb 0x10000 v && ltb v 0x110000)))
    then some (v, r)
    else none
four_bytes a _ = none

-- The first character of a UTF-8 text, and the bytes behind it; `none` where they are not UTF-8.
unfoldable pub next_char : List ℕ → Option (ℕ × List ℕ)
unfolding two_bytes three_bytes four_bytes
next_char [] = none
next_char (a ∷ r) =
    if ltb a 0x80
    then some (a, r)
    else if ltb a 0xc2
    then none
    else if ltb a 0xe0
    then two_bytes a r
    else if ltb a 0xf0
    then three_bytes a r
    else if ltb a 0xf5
    then four_bytes a r
    else none

unfoldable pub from_utf8_loop : ℕ → List ℕ → Option Text
unfolding next_char
from_utf8_loop fuel [] = some []
from_utf8_loop zero (b ∷ bs) = none
from_utf8_loop (suc fuel) (b ∷ bs) = elim (next_char (b ∷ bs)) [
  | none ↦ none
  | some (c, rest) ↦ elim (from_utf8_loop fuel rest) [ none ↦ none | some s ↦ some (c ∷ s) ]
]

-- Each character takes a byte at least, so `length bs` rounds are enough.
unfoldable pub from_utf8 : List ℕ → Option Text
unfolding from_utf8_loop
from_utf8 bs = from_utf8_loop (length bs) bs
