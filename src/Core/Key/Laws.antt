-- ===== src/Core/Key/Laws.antt =====
-- The forms of a public key, read back.
use sqnr.Base.{
  ℕ, ◌+◌, ◌≤◌, ◌≡◌, ◌↔◌, refl, ap, true, false, List, [], ◌∷◌, ◌++◌, Result, ok, map_err, and_then,
  and_then-eq-ok, length, length-append, all, arith, Bool-cases, inl, inr,
}
use sqnr.Text.Utf8.{Text, IsText, len, as_bytes, encode_char}
use sqnr.Text.Trim.{trim, is_whitespace}
use sqnr.Text.TrimLaws.{IsWhite, IsSolid, trim_padded}
use sqnr.Core.Bytes.{IsArray, IsBytes}
use sqnr.Core.Error.{Error}
use sqnr.Core.Key.{
  PubKey, Encodings, is_ascii_hexdigit, from_slice, to_base58, from_base58, from_hex, looks_hex,
  from_str,
}

-- What the crates promise of the bytes of a key. Base58 of 32 bytes has at most 44 characters.
pub record IsLawful (E : Encodings) : Type 0 where
  pub bs58 : (bs : List ℕ) → IsBytes bs → E.bs58_decode (E.bs58_encode bs) ≡ ok bs
  pub bs58_solid : (bs : List ℕ) → IsBytes bs → IsSolid (E.bs58_encode bs)
  pub bs58_text : (bs : List ℕ) → IsBytes bs → IsText (E.bs58_encode bs)
  pub bs58_short : (bs : List ℕ) → IsArray 32 bs → length (E.bs58_encode bs) ≤ 44
  pub hex : (bs : List ℕ) → IsBytes bs → E.hex_decode (E.hex_encode bs) ≡ ok bs
  pub hex_digits : (bs : List ℕ) → IsBytes bs → all is_ascii_hexdigit (E.hex_encode bs) ≡ true
  pub hex_size : (bs : List ℕ) → IsBytes bs → length (E.hex_encode bs) ≡ length bs + length bs

-- A key has 32 bytes, whatever it was read from.
pub from_slice_iff :
    (raw : List ℕ) (k : PubKey) → (from_slice raw ≡ ok k) ↔ ((length raw ≡ 32) × (raw ≡ k.raw))
unfolding from_slice
from_slice_iff raw k = (λ e. ground arith, λ h. ground arith)

hex_char :
    (c : ℕ) → is_ascii_hexdigit c ≡ true → (encode_char c ≡ c ∷ []) × (is_whitespace c ≡ false)
unfolding is_ascii_hexdigit encode_char is_whitespace
hex_char c h = ground arith

-- A text of hexadecimal digits has as many bytes as characters, and no white space.
pub len-hex : (s : Text) → all is_ascii_hexdigit s ≡ true → (len s ≡ length s) × IsSolid s
unfolding len as_bytes all
len-hex [] h = (refl, tt)
len-hex (c ∷ s) h =
    let first : is_ascii_hexdigit c ≡ true = ground arith in
    let others : all is_ascii_hexdigit s ≡ true = ground arith in
    let (size, solid) = len-hex s others in
    (
      omega
          (arith, size, length-append (encode_char c) (as_bytes s), ap length (hex_char c first).0),
      ((hex_char c first).1, solid),
    )

-- A short text is never taken for hexadecimal.
pub looks_hex_short : (s : Text) → length s ≤ 44 → looks_hex s ≡ false
unfolding looks_hex
looks_hex_short s h = elim (Bool-cases (all is_ascii_hexdigit s)) [
  | inl e ↦ ground (arith, (len-hex s e).0)
  | inr e ↦ ground arith
]

pub same_raw : (raw : List ℕ) (k : PubKey) → length raw ≡ 32 → raw ≡ k.raw → from_slice raw ≡ ok k
same_raw raw k h e = (from_slice_iff raw k).1 (h, e)

sliced :
    (m : Result (List ℕ) Text) (f : Text → Error) (k : PubKey)
    → and_then (map_err m f) from_slice ≡ ok k
    → length k.raw ≡ 32
sliced m f k e =
    let (raw, _, cut) = and_then-eq-ok (map_err m f) from_slice e in
    let (size, same) = (from_slice_iff raw k).0 cut in rw (← same) size

module _ (E : Encodings) where
  -- A key that `from_str` accepts has 32 bytes, whichever form it is read from.
  from_str_size : (s : Text) (k : PubKey) → from_str E s ≡ ok k → length k.raw ≡ 32
  unfolding from_str from_base58 from_hex
  from_str_size s k e = elim (Bool-cases (looks_hex (trim s))) [
    | inl hex ↦ sliced (E.hex_decode (trim s)) _ k (rw (hex, from_str) at e)
    | inr other ↦ sliced (E.bs58_decode (trim s)) _ k (rw (other, from_str) at e)
  ]

module _ (E : Encodings) (L : IsLawful E) where
  pub from_base58-to_base58 : (k : PubKey) → IsArray 32 k.raw → from_base58 E (to_base58 E k) ≡ ok k
  unfolding from_base58 to_base58
  from_base58-to_base58 k h = rw (L.bs58 k.raw h.bytes) (same_raw k.raw k h.size refl)

  -- A 32-byte key that is printed in base58 and read again is the same key, also with white space
  -- round it.
  from_str-to_base58 :
      (k : PubKey) (front back : Text)
      → IsArray 32 k.raw
      → IsWhite front
      → IsWhite back
      → from_str E (front ++ (to_base58 E k ++ back)) ≡ ok k
  unfolding from_str
  from_str-to_base58 k front back h hf hb =
      rw
        (
          trim_padded front (to_base58 E k) back hf (unfold to_base58 in L.bs58_solid k.raw h.bytes)
              hb,
          looks_hex_short (to_base58 E k) (unfold to_base58 in L.bs58_short k.raw h),
        )
        (from_base58-to_base58 k h)

  -- A 32-byte key that is given as 64 hexadecimal digits, with white space round it or not, is read.
  from_str-hex :
      (k : PubKey) (front back : Text)
      → IsArray 32 k.raw
      → IsWhite front
      → IsWhite back
      → from_str E (front ++ (E.hex_encode k.raw ++ back)) ≡ ok k
  unfolding from_str from_hex
  from_str-hex k front back h hf hb =
      let digits = L.hex_digits k.raw h.bytes in
      let (size, solid) = len-hex (E.hex_encode k.raw) digits in
      let hex : looks_hex (E.hex_encode k.raw) ≡ true =
        unfold looks_hex in ground (arith, size, digits, L.hex_size k.raw h.bytes, h.size) in
      rw (trim_padded front (E.hex_encode k.raw) back hf solid hb, hex, L.hex k.raw h.bytes)
        (same_raw k.raw k h.size refl)

  -- A 32-byte key is read from its base58 form, and from its 64 hexadecimal digits, with white space
  -- round them or not.
  pub from_str_forms :
      (k : PubKey) (front back : Text)
      → IsArray 32 k.raw
      → IsWhite front
      → IsWhite back
      → (from_str E (front ++ (to_base58 E k ++ back)) ≡ ok k)
        × (from_str E (front ++ (E.hex_encode k.raw ++ back)) ≡ ok k)
  from_str_forms k front back h hf hb =
      (from_str-to_base58 k front back h hf hb, from_str-hex k front back h hf hb)

-- The crates decode to bytes.
pub record GivesBytes (E : Encodings) : Type 0 where
  pub bs58_bytes : (s : Text) (bs : List ℕ) → E.bs58_decode s ≡ ok bs → IsBytes bs
  pub hex_bytes : (s : Text) (bs : List ℕ) → E.hex_decode s ≡ ok bs → IsBytes bs
