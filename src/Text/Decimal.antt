-- ===== src/Text/Decimal.antt =====
-- The numbers below 256 that a text spells, beside the checked loop of `parse::<u8>`.
use sqnr.Base.{
  ℕ, ◌+◌, ◌-◌, ◌*◌, ◌<◌, ◌≤◌, ◌≡◌, refl, Bool, true, false, ◌&&◌, none, some, [], ◌∷◌, ltb, leb,
  ◌==◌, if◌then◌else◌, arith, Bool-cases, inl, inr, all,
}
use sqnr.Text.Utf8.{Text}
use sqnr.Text.Parse.{u8_loop, u8_digits, parse_u8}

unfoldable pub is_digit : ℕ → Bool
is_digit c = leb b'0' c && leb c b'9'

-- The number that decimal digits make, after those of `n`.
unfoldable pub value : ℕ → Text → ℕ
value n [] = n
value n (c ∷ s) = value (n * 10 + (c - 48)) s

-- Without one leading plus sign.
unfoldable pub unsigned : Text → Text
unsigned [] = []
unsigned (c ∷ s) = if c == b'+' then s else c ∷ s

unfoldable pub is_filled : Text → Bool
is_filled [] = false
is_filled (c ∷ s) = true

-- One digit or more, and nothing else, that make a number below 256.
unfoldable pub spells : Text → Bool
unfolding is_filled
spells s = is_filled s && (all is_digit s && ltb (value 0 s) 256)

value-≤ : (n : ℕ) (s : Text) → n ≤ value n s
unfolding value
value-≤ n [] = omega arith
value-≤ n (c ∷ s) = omega (arith, value-≤ (n * 10 + (c - 48)) s)

u8_loop-value :
    (n : ℕ) (s : Text)
    → n < 256
    → u8_loop n s ≡ (if all is_digit s && ltb (value n s) 256 then some (value n s) else none)
unfolding u8_loop value all is_digit
u8_loop-value n [] h = ground arith
u8_loop-value n (c ∷ s) h = elim (Bool-cases (ltb (n * 10 + (c - 48)) 256)) [
  | inl small ↦ ground (arith, u8_loop-value (n * 10 + (c - 48)) s)
  | inr large ↦ ground (arith, value-≤ (n * 10 + (c - 48)) s)
]

u8_digits-value : (s : Text) → u8_digits s ≡ (if spells s then some (value 0 s) else none)
unfolding u8_digits spells is_filled
u8_digits-value [] = refl
u8_digits-value (c ∷ s) = u8_loop-value 0 (c ∷ s) (omega arith)

-- What parses is what is spelled.
pub parse_u8-value :
    (s : Text) → parse_u8 s ≡ (if spells (unsigned s) then some (value 0 (unsigned s)) else none)
unfolding parse_u8 unsigned
parse_u8-value [] = unfold spells is_filled in refl
parse_u8-value (c ∷ s) = elim (Bool-cases (c == b'+')) [
  | inl plus ↦ rw plus (u8_digits-value s)
  | inr other ↦ rw other (u8_digits-value (c ∷ s))
]
