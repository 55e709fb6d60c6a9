-- ===== src/Text/Parse.antt =====
-- `str::parse::<u8>`.
use sqnr.Base.{
  ℕ, ◌+◌, ◌-◌, ◌*◌, ◌<◌, ◌≡◌, refl, Bool, true, false, ◌&&◌, Option, none, some, [], ◌∷◌, ltb, leb,
  ◌==◌, if◌then◌else◌, arith, suc, zero,
}
use sqnr.Text.Utf8.{Text}
use sqnr.Text.Format.{show}

-- Each step is checked: it fails at a character that is no digit, and where 255 is exceeded.
unfoldable pub u8_loop : ℕ → Text → Option ℕ
u8_loop acc [] = some acc
u8_loop acc (c ∷ s) =
    let acc' = acc * 10 + (c - 48) in
    let rest = u8_loop acc' s in if leb b'0' c && (leb c b'9' && ltb acc' 256) then rest else none

unfoldable pub u8_digits : Text → Option ℕ
unfolding u8_loop
u8_digits [] = none
u8_digits (c ∷ s) = u8_loop 0 (c ∷ s)

-- One leading plus sign is allowed.
unfoldable pub parse_u8 : Text → Option ℕ
unfolding u8_digits
parse_u8 [] = none
parse_u8 (c ∷ s) = if c == b'+' then u8_digits s else u8_digits (c ∷ s)

u8_loop-lt : (acc : ℕ) (s : Text) (v : ℕ) → acc < 256 → u8_loop acc s ≡ some v → v < 256
unfolding u8_loop
u8_loop-lt acc [] v h e = ground arith
u8_loop-lt acc (c ∷ s) v h e = ground (arith, u8_loop-lt (acc * 10 + (c - 48)) s v)

u8_digits-lt : (s : Text) (v : ℕ) → u8_digits s ≡ some v → v < 256
unfolding u8_digits
u8_digits-lt [] v e = cc
u8_digits-lt (c ∷ s) v e = u8_loop-lt 0 (c ∷ s) v (omega arith) e

-- What parses is a `u8`.
pub parse_u8-lt : (s : Text) (v : ℕ) → parse_u8 s ≡ some v → v < 256
unfolding parse_u8
parse_u8-lt [] v e = cc
parse_u8-lt (c ∷ s) v e = ground (arith, u8_digits-lt s v, u8_digits-lt (c ∷ s) v)

reads_back : Option ℕ → ℕ → Bool
reads_back none v = false
reads_back (some u) v = u == v

shows : ℕ → Bool
unfolding reads_back parse_u8 show
shows v = reads_back (parse_u8 (show v)) v

all_below : ℕ → Bool
unfolding shows
all_below zero = true
all_below (suc n) = shows n && all_below n

all_below→shows : (n v : ℕ) → all_below n ≡ true → v < n → shows v ≡ true
unfolding all_below
all_below→shows zero v e h = absurd (omega arith)
all_below→shows (suc n) v e h = ground (arith, all_below→shows n v)

reads_back_sound : (o : Option ℕ) (v : ℕ) → reads_back o v ≡ true → o ≡ some v
unfolding reads_back
reads_back_sound none v e = cc
reads_back_sound (some u) v e = ground arith

-- The decimal form of a `u8` is read back.
pub parse_u8-show : (v : ℕ) → v < 256 → parse_u8 (show v) ≡ some v
unfolding shows all_below
parse_u8-show v h = reads_back_sound _ v (all_below→shows 256 v table h)
  where
    table : all_below 256 ≡ true
    table = refl
