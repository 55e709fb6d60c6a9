-- ===== src/Core/Key/Forms.antt =====
-- Which texts `from_str` reads, and as which key.
use sqnr.Base.{
  ℕ, ◌≡◌, ◌⊎◌, ◌↔◌, refl, sym, ap, ◌∙◌, inl, inr, true, Bool-cases, List, [], ◌∷◌, ok,
  map_err-eq-ok, and_then-eq-ok, length, all, arith,
}
use sqnr.Base
use sqnr.Text.Utf8.{Text}
use sqnr.Text.Trim.{trim}
use sqnr.Text.Search.{to_ascii_lowercase, lower_char}
use sqnr.Core.Bytes.{IsBytes, IsArray}
use sqnr.Core.Key.{
  PubKey, Encodings, is_ascii_hexdigit, from_slice, to_base58, from_base58, from_hex, looks_hex,
  from_str,
}
use sqnr.Core.Key.Laws.{
  IsLawful, from_slice_iff, len-hex, looks_hex_short, same_raw, from_base58-to_base58,
}

-- Each list of bytes has one base58 form.
abbrev pub IsCanonical : Encodings → Type 0
IsCanonical E = (s : Text) (bs : List ℕ) → E.bs58_decode s ≡ ok bs → E.bs58_encode bs ≡ s

-- The crate `hex` writes small letters, and reads letters of either case.
pub record IgnoresCase (E : Encodings) : Type 0 where
  pub hex_lower :
      (s : Text) (bs : List ℕ) → E.hex_decode s ≡ ok bs → E.hex_encode bs ≡ to_ascii_lowercase s
  pub hex_either :
      (s : Text) (bs : List ℕ)
      → IsBytes bs
      → E.hex_encode bs ≡ to_ascii_lowercase s
      → E.hex_decode s ≡ ok bs

lower-hex : (c : ℕ) → is_ascii_hexdigit (lower_char c) ≡ true → is_ascii_hexdigit c ≡ true
unfolding is_ascii_hexdigit lower_char
lower-hex c h = ground arith

all-lower :
    (s : Text)
    → all is_ascii_hexdigit (to_ascii_lowercase s) ≡ true
    → (all is_ascii_hexdigit s ≡ true) × (length (to_ascii_lowercase s) ≡ length s)
unfolding all to_ascii_lowercase
all-lower [] h = (refl, refl)
all-lower (c ∷ s) h =
    let first : is_ascii_hexdigit (lower_char c) ≡ true = ground arith in
    let others : all is_ascii_hexdigit (to_ascii_lowercase s) ≡ true = ground arith in
    let (rest, size) = all-lower s others in
    (rw (lower-hex c first, rest) refl, omega (arith, size))

module _ (E : Encodings) (canonical : IsCanonical E) where
  pub to_base58-from_base58 :
      (s : Text) (key : PubKey) → from_base58 E s ≡ ok key → to_base58 E key ≡ s
  unfolding from_base58 to_base58
  to_base58-from_base58 s key e =
      let (raw, decoded, cut) = and_then-eq-ok (Base.map_err (E.bs58_decode s) _) from_slice e in
      ap E.bs58_encode (sym ((from_slice_iff raw key).0 cut).1)
      ∙ canonical s raw (map_err-eq-ok (E.bs58_decode s) _ raw decoded)

  module _ (L : IsLawful E) (I : IgnoresCase E) where
    hex_encode-from_hex :
        (s : Text) (k : PubKey) → from_hex E s ≡ ok k → to_ascii_lowercase s ≡ E.hex_encode k.raw
    unfolding from_hex
    hex_encode-from_hex s k e =
        let (raw, decoded, cut) = and_then-eq-ok (Base.map_err (E.hex_decode s) _) from_slice e in
        sym (I.hex_lower s raw (map_err-eq-ok (E.hex_decode s) _ raw decoded))
        ∙ ap E.hex_encode ((from_slice_iff raw k).0 cut).1

    from_hex-hex_encode :
        (s : Text) (k : PubKey)
        → IsArray 32 k.raw
        → to_ascii_lowercase s ≡ E.hex_encode k.raw
        → (looks_hex s ≡ true) × (from_hex E s ≡ ok k)
    unfolding from_hex looks_hex
    from_hex-hex_encode s k h e =
        let (digits, size) = all-lower s (rw e (L.hex_digits k.raw h.bytes)) in
        let long = L.hex_size k.raw h.bytes in
        let short : length (to_ascii_lowercase s) ≡ length (E.hex_encode k.raw) = ap length e in
        (
          ground (arith, (len-hex s digits).0, size, long, short, h.size, digits),
          rw (I.hex_either s k.raw h.bytes (sym e)) (same_raw k.raw k h.size refl),
        )

    -- A text is read as a 32-byte key exactly where, but for white space round it, it is the key's
    -- base58 form, or, but for the case of its letters too, the key's 64 hexadecimal digits; where
    -- each list of bytes has one base58 form.
    pub from_str_iff :
        (s : Text) (k : PubKey)
        → IsArray 32 k.raw
        → (from_str E s ≡ ok k)
          ↔ ((trim s ≡ to_base58 E k) ⊎ (to_ascii_lowercase (trim s) ≡ E.hex_encode k.raw))
    unfolding from_str
    from_str_iff s k h = (
      λ e. elim (Bool-cases (looks_hex (trim s))) [
        | inl hex ↦ inr (hex_encode-from_hex (trim s) k (rw hex at e))
        | inr other ↦ inl (sym (to_base58-from_base58 (trim s) k (rw other at e)))
      ],
      λ x. elim x [
        | inl base58 ↦
            rw (base58, looks_hex_short (to_base58 E k) (unfold to_base58 in L.bs58_short k.raw h))
              (from_base58-to_base58 E L k h)
        | inr digits ↦ let (hex, reads) = from_hex-hex_encode (trim s) k h digits in rw hex reads
      ],
    )
