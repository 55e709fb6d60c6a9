-- ===== src/Text/Utf8Laws.antt =====
-- UTF-8 is a bijection between texts and the byte strings that decode.
use sqnr.Base.{
  ℕ, zero, suc, ◌≤◌, ◌<◌, ◌≡◌, refl, none, some, List, [], ◌∷◌, ◌++◌, length, length-append, All,
  All-append, arith, ltb, if◌then◌else◌, Option-cases, inl, inr,
}
use sqnr.Text.Utf8.{
  Text, IsScalar, IsText, encode_char, as_bytes, next_char, two_bytes, three_bytes, four_bytes,
  from_utf8_loop, from_utf8,
}

-- A character that was encoded is read back, whatever follows.
pub next_char-encode_char :
    (c : ℕ) (rest : List ℕ) → IsScalar c → next_char (encode_char c ++ rest) ≡ some (c, rest)
unfolding next_char encode_char
next_char-encode_char c rest h = ground arith

one_byte : (c : ℕ) → c < 0x80 → encode_char c ≡ c ∷ []
unfolding encode_char
one_byte c h = ground arith

two_bytes_inv :
    (a c : ℕ) (r rest : List ℕ)
    → 0xc2 ≤ a
    → a < 0xe0
    → two_bytes a r ≡ some (c, rest)
    → IsScalar c × (a ∷ r ≡ encode_char c ++ rest)
unfolding two_bytes encode_char
two_bytes_inv a c [] rest k l h = ground arith
two_bytes_inv a c (b ∷ r) rest k l h = ground arith

three_bytes_inv :
    (a c : ℕ) (r rest : List ℕ)
    → 0xe0 ≤ a
    → a < 0xf0
    → three_bytes a r ≡ some (c, rest)
    → IsScalar c × (a ∷ r ≡ encode_char c ++ rest)
unfolding three_bytes encode_char
three_bytes_inv a c [] rest k l h = ground arith
three_bytes_inv a c (b ∷ []) rest k l h = ground arith
three_bytes_inv a c (b ∷ d ∷ r) rest k l h = ground arith

four_bytes_inv :
    (a c : ℕ) (r rest : List ℕ)
    → 0xf0 ≤ a
    → four_bytes a r ≡ some (c, rest)
    → IsScalar c × (a ∷ r ≡ encode_char c ++ rest)
unfolding four_bytes encode_char
four_bytes_inv a c [] rest k h = ground arith
four_bytes_inv a c (b ∷ []) rest k h = ground arith
four_bytes_inv a c (b ∷ d ∷ []) rest k h = ground arith
four_bytes_inv a c (b ∷ d ∷ e ∷ r) rest k h = ground arith

next_char_branch :
    (a : ℕ) (r : List ℕ)
    → next_char (a ∷ r) ≡ (
        if ltb a 0x80
        then some (a, r)
        else if ltb a 0xc2
        then none
        else if ltb a 0xe0
        then two_bytes a r
        else if ltb a 0xf0
        then three_bytes a r
        else if ltb a 0xf5
        then four_bytes a r
        else none)
unfolding next_char
next_char_branch a r = refl

-- What is read as a character is that character's only encoding.
pub next_char_inv :
    (bs : List ℕ) (c : ℕ) (rest : List ℕ)
    → next_char bs ≡ some (c, rest)
    → IsScalar c × (bs ≡ encode_char c ++ rest)
next_char_inv [] c rest h = unfold next_char in cc
next_char_inv (a ∷ r) c rest h = ground (
  arith,
  next_char_branch a r,
  one_byte a,
  two_bytes_inv a c r rest,
  three_bytes_inv a c r rest,
  four_bytes_inv a c r rest,
)

encode_char_pos : (c : ℕ) → 1 ≤ length (encode_char c)
unfolding encode_char
encode_char_pos c = ground arith

from_utf8_loop_step :
    (fuel c : ℕ) (bs rest : List ℕ) (s : Text)
    → next_char bs ≡ some (c, rest)
    → from_utf8_loop fuel rest ≡ some s
    → from_utf8_loop (suc fuel) bs ≡ some (c ∷ s)
unfolding from_utf8_loop
from_utf8_loop_step fuel c [] rest s h k = unfold next_char in cc
from_utf8_loop_step fuel c (b ∷ bs) rest s h k = rw (h, from_utf8_loop) (rw k)

from_utf8_loop-as_bytes :
    (s : Text) (fuel : ℕ)
    → IsText s
    → length (as_bytes s) ≤ fuel
    → from_utf8_loop fuel (as_bytes s) ≡ some s
unfolding as_bytes
from_utf8_loop-as_bytes [] fuel h k = unfold from_utf8_loop in refl
from_utf8_loop-as_bytes (c ∷ s) zero h k =
    absurd (omega (arith, length-append (encode_char c) (as_bytes s), encode_char_pos c))
from_utf8_loop-as_bytes (c ∷ s) (suc fuel) h k =
    from_utf8_loop_step fuel c _ (as_bytes s) s (next_char-encode_char c (as_bytes s) h.0) (
      from_utf8_loop-as_bytes s fuel h.1
        (omega (arith, length-append (encode_char c) (as_bytes s), encode_char_pos c)))

-- The bytes of a text decode to that text.
pub from_utf8-as_bytes : (s : Text) → IsText s → from_utf8 (as_bytes s) ≡ some s
unfolding from_utf8
from_utf8-as_bytes s h = from_utf8_loop-as_bytes s _ h (omega arith)

from_utf8_loop_inv :
    (fuel : ℕ) (bs : List ℕ) (s : Text)
    → from_utf8_loop fuel bs ≡ some s
    → IsText s × (bs ≡ as_bytes s)
unfolding from_utf8_loop as_bytes
from_utf8_loop_inv fuel [] s h = ground arith
from_utf8_loop_inv zero (b ∷ bs) s h = cc
from_utf8_loop_inv (suc fuel) (b ∷ bs) s h = elim (Option-cases (next_char (b ∷ bs))) [
  | inl e ↦ cc (rw (e, from_utf8_loop) at h)
  | inr ((c, rest), e) ↦ elim (Option-cases (from_utf8_loop fuel rest)) [
    | inl e' ↦ cc (rw (e, from_utf8_loop) at h, e')
    | inr (t, e') ↦
        ground (arith, e, e', next_char_inv (b ∷ bs) c rest e, from_utf8_loop_inv fuel rest t e')
  ]
]

-- A byte string decodes to one text at most, whose bytes it is: there is no second encoding.
pub from_utf8_inv : (bs : List ℕ) (s : Text) → from_utf8 bs ≡ some s → IsText s × (bs ≡ as_bytes s)
unfolding from_utf8
from_utf8_inv bs s h = from_utf8_loop_inv (length bs) bs s h

encode_char_bytes : (c : ℕ) → IsScalar c → All (λ b. b < 256) (encode_char c)
unfolding encode_char
encode_char_bytes c h = ground arith

-- The UTF-8 form of a text is made of bytes.
pub as_bytes-All : (s : Text) → IsText s → All (λ b. b < 256) (as_bytes s)
unfolding as_bytes
as_bytes-All [] h = tt
as_bytes-All (c ∷ s) h =
    All-append _ (encode_char c) (as_bytes s) (encode_char_bytes c h.0) (as_bytes-All s h.1)
