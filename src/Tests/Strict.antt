-- ===== src/Tests/Strict.antt =====
-- Encodings with one base58 form for each list of bytes, and hexadecimal digits of either case.
use sqnr.Base.{
  ℕ, ◌%◌, ◌/◌, ◌≡◌, ◌⊎◌, ◌↔◌, refl, sym, ap, ◌∙◌, inl, inr, Bool-cases, List, [], ◌∷◌, ◌++◌, ok,
  err, ok-injective, Result, ◌=?◌, =?_refl, =?_iff, replicate, if◌then◌else◌, arith,
}
use sqnr.Text.Utf8.{Text, codes}
use sqnr.Text.Trim.{trim}
use sqnr.Text.Search.{to_ascii_lowercase, lower_char}
use sqnr.Core.Bytes.{IsBytes}
use sqnr.Core.Key.{PubKey, Encodings, to_base58, from_str}
use sqnr.Core.Key.Laws
use sqnr.Core.Key.Laws.{GivesBytes}
use sqnr.Core.Key.Forms.{IsCanonical, IgnoresCase, from_str_iff}
use sqnr.Tests.Toy.{
  toy_encodings-IsLawful, toy_encodings-GivesBytes, wide, narrow, to_hex, of_hex, hex_digit,
}

unfoldable pub strictly : Text → Result (List ℕ) Text
strictly s = if wide (narrow s) =? s then ok (narrow s) else err (codes "not in base58")

pub strictly-ok : (s : Text) (bs : List ℕ) → strictly s ≡ ok bs → (narrow s ≡ bs) × (wide bs ≡ s)
unfolding strictly
strictly-ok s bs e = elim (Bool-cases (wide (narrow s) =? s)) [
  | inl same ↦
      let read : narrow s ≡ bs = ok-injective (rw same at e) in
      (read, ap wide (sym read) ∙ (=?_iff _ _).0 same)
  | inr other ↦ cc (rw other at e)
]

unfoldable pub from_digits : Text → Result (List ℕ) Text
from_digits s =
    let t = to_ascii_lowercase s in
    if to_hex (of_hex t) =? t then ok (of_hex t) else err (codes "not hexadecimal")

from_digits-ok :
    (s : Text) (bs : List ℕ)
    → from_digits s ≡ ok bs
    → (of_hex (to_ascii_lowercase s) ≡ bs) × (to_hex bs ≡ to_ascii_lowercase s)
unfolding from_digits
from_digits-ok s bs e =
    elim (Bool-cases (to_hex (of_hex (to_ascii_lowercase s)) =? to_ascii_lowercase s)) [
      | inl same ↦
          let read : of_hex (to_ascii_lowercase s) ≡ bs = ok-injective (rw same at e) in
          (read, ap to_hex (sym read) ∙ (=?_iff _ _).0 same)
      | inr other ↦ cc (rw other at e)
    ]

lower_digit : (d : ℕ) → lower_char (hex_digit d) ≡ hex_digit d
unfolding hex_digit lower_char
lower_digit d = ground arith

lower-to_hex : (bs : List ℕ) → to_ascii_lowercase (to_hex bs) ≡ to_hex bs
unfolding to_ascii_lowercase to_hex
lower-to_hex [] = refl
lower-to_hex (b ∷ bs) = rw (lower_digit (b / 16), lower_digit (b % 16), lower-to_hex bs) refl

digits-read :
    (s : Text) (bs : List ℕ) → IsBytes bs → to_hex bs ≡ to_ascii_lowercase s → from_digits s ≡ ok bs
unfolding from_digits
digits-read s bs h e =
    let read : of_hex (to_hex bs) ≡ bs = ok-injective (toy_encodings-IsLawful.hex bs h) in
    rw (← e, read, =?_refl (to_hex bs)) refl

abbrev pub strict : Encodings
strict = record {
  bs58_encode = wide;
  bs58_decode = strictly;
  hex_encode = to_hex;
  hex_decode = from_digits;
}

pub strict-IsLawful : Laws.IsLawful strict
unfolding strictly
strict-IsLawful = record {
  bs58 = λ bs h. rw (ok-injective (toy_encodings-IsLawful.bs58 bs h), =?_refl (wide bs)) refl;
  bs58_solid = toy_encodings-IsLawful.bs58_solid;
  bs58_text = toy_encodings-IsLawful.bs58_text;
  bs58_short = toy_encodings-IsLawful.bs58_short;
  hex = λ bs h. digits-read (to_hex bs) bs h (sym (lower-to_hex bs));
  hex_digits = toy_encodings-IsLawful.hex_digits;
  hex_size = toy_encodings-IsLawful.hex_size;
}

pub strict-GivesBytes : GivesBytes strict
strict-GivesBytes = record {
  bs58_bytes = λ s bs e. toy_encodings-GivesBytes.bs58_bytes s bs (ap ok (strictly-ok s bs e).0);
  hex_bytes = λ s bs e.
      toy_encodings-GivesBytes.hex_bytes (to_ascii_lowercase s) bs
        (ap ok (from_digits-ok s bs e).0);
}

pub strict-IsCanonical : IsCanonical strict
strict-IsCanonical s bs e = (strictly-ok s bs e).1

strict-IgnoresCase : IgnoresCase strict
strict-IgnoresCase = record {
  hex_lower = λ s bs e. (from_digits-ok s bs e).1;
  hex_either = digits-read;
}

abbrev key : PubKey
key = record { raw = replicate 32 0xab }

-- The digits of the key, in capital letters, with white space round them.
abbrev capitals : Text
capitals =
    32 ∷ (codes "ABABABABABABABABABABABABABABABABABABABABABABABABABABABABABABABAB" ++ (10 ∷ []))

from_str_iff_example : (from_str strict capitals ≡ ok key) ↔ (
    (trim capitals ≡ to_base58 strict key)
    ⊎ (to_ascii_lowercase (trim capitals) ≡ to_hex (replicate 32 0xab)))
from_str_iff_example =
    from_str_iff strict strict-IsCanonical strict-IsLawful strict-IgnoresCase capitals key
      (omega arith)
