-- ===== src/Tests/Toy.antt =====
-- Stand-ins for the crates, which keep their promises and have no strength.
use sqnr.Base.{
  ok-injective, inl, ℕ, zero, suc, ◌+◌, ◌-◌, ◌*◌, ◌/◌, ◌%◌, ltb, ap, ◌==◌, ◌≡◌, refl, true, List,
  [], ◌∷◌, ◌++◌, ok, err, length, ◌=?◌, =?_refl, all, arith, if◌then◌else◌,
}
use sqnr.Text.Utf8.{Text, IsText, codes}
use sqnr.Text.Trim.{is_whitespace}
use sqnr.Text.TrimLaws.{IsSolid}
use sqnr.Core.Bytes.{IsBytes, IsArray}
use sqnr.Core.Key.{Encodings, is_ascii_hexdigit}
use sqnr.Core.Key.Laws
use sqnr.Core.Signed.{Crypto}
use sqnr.Core.Signed.Verify

-- The first `n` bytes, padded by zeros.
unfoldable pub fit : ℕ → List ℕ → List ℕ
fit zero bs = []
fit (suc n) [] = 0 ∷ fit n []
fit (suc n) (b ∷ bs) = (b % 256) ∷ fit n bs

fit-IsArray : (n : ℕ) (bs : List ℕ) → IsArray n (fit n bs)
unfolding fit
fit-IsArray zero bs = ground arith
fit-IsArray (suc n) [] =
    let h = fit-IsArray n [] in
    record { size = omega (arith, h.size); bytes = (omega arith, h.bytes) }
fit-IsArray (suc n) (b ∷ bs) =
    let h = fit-IsArray n bs in
    record { size = omega (arith, h.size); bytes = (omega arith, h.bytes) }

-- The sum of the bytes, in front of the last of them.
unfoldable pub weak_digest : List ℕ → List ℕ → ℕ → List ℕ
weak_digest [] last sum = fit 32 ((sum / 256) ∷ sum ∷ last)
weak_digest (b ∷ bs) last sum = weak_digest bs (b ∷ last) (sum + b)

weak_digest-IsArray : (bs last : List ℕ) (sum : ℕ) → IsArray 32 (weak_digest bs last sum)
unfolding weak_digest
weak_digest-IsArray [] last sum = fit-IsArray 32 _
weak_digest-IsArray (b ∷ bs) last sum = weak_digest-IsArray bs (b ∷ last) (sum + b)

abbrev pub toy : Crypto
toy = record {
  SigningKey = List ℕ;
  VerifyingKey = List ℕ;
  from_seed = λ s. s;
  seed_of = λ k. k;
  verifying_key = fit 32;
  sign = λ k m. fit 64 (m ++ fit 32 k);
  from_bytes = λ b. if length b == 32 then ok b else err (codes "not a point");
  to_bytes = λ k. k;
  verify = λ k m s. fit 64 (m ++ k) =? s;
  digest = λ bs. weak_digest bs [] 0;
}

pub toy-IsLawful : Verify.IsLawful toy
toy-IsLawful = record {
  from_bytes-to_bytes = λ k. rw (fit-IsArray 32 k).size;
  verify-sign = λ k m. =?_refl (fit 64 (m ++ fit 32 k));
  to_bytes_size = λ k. fit-IsArray 32 k;
  sign_size = λ k m. fit-IsArray 64 (m ++ fit 32 k);
  digest_size = λ bs. weak_digest-IsArray bs [] 0;
}

-- One character for each byte, from U+0100 on.
unfoldable pub wide : List ℕ → Text
wide [] = []
wide (b ∷ bs) = (0x100 + b) ∷ wide bs

unfoldable pub narrow : Text → List ℕ
narrow [] = []
narrow (c ∷ s) = ((c - 0x100) % 256) ∷ narrow s

unfoldable pub hex_digit : ℕ → ℕ
hex_digit d = if ltb d 10 then 48 + d else 87 + d

hex_value : ℕ → ℕ
hex_value c = if ltb c 58 then c - 48 else c - 87

unfoldable pub to_hex : List ℕ → Text
unfolding hex_digit
to_hex [] = []
to_hex (b ∷ bs) = hex_digit (b / 16) ∷ hex_digit (b % 16) ∷ to_hex bs

unfoldable pub of_hex : Text → List ℕ
unfolding hex_value
of_hex (c ∷ d ∷ s) = ((hex_value c * 16 + hex_value d) % 256) ∷ of_hex s
of_hex _ = []

abbrev pub toy_encodings : Encodings
toy_encodings = record {
  bs58_encode = wide;
  bs58_decode = λ s. ok (narrow s);
  hex_encode = to_hex;
  hex_decode = λ s. ok (of_hex s);
}

narrow-wide : (bs : List ℕ) → IsBytes bs → narrow (wide bs) ≡ bs
unfolding narrow wide
narrow-wide [] h = refl
narrow-wide (b ∷ bs) h = let k = narrow-wide bs h.1 in ground (arith, k)

wide-IsSolid : (bs : List ℕ) → IsBytes bs → IsSolid (wide bs)
unfolding wide is_whitespace
wide-IsSolid [] h = tt
wide-IsSolid (b ∷ bs) h = (ground arith, wide-IsSolid bs h.1)

wide-IsText : (bs : List ℕ) → IsBytes bs → IsText (wide bs)
unfolding wide
wide-IsText [] h = tt
wide-IsText (b ∷ bs) h = ((omega arith, inl (omega arith)), wide-IsText bs h.1)

length-wide : (bs : List ℕ) → length (wide bs) ≡ length bs
unfolding wide
length-wide [] = refl
length-wide (b ∷ bs) = omega (arith, length-wide bs)

of_hex-to_hex : (bs : List ℕ) → IsBytes bs → of_hex (to_hex bs) ≡ bs
unfolding of_hex to_hex
of_hex-to_hex [] h = refl
of_hex-to_hex (b ∷ bs) h = let k = of_hex-to_hex bs h.1 in ground (arith, k)

to_hex-digits : (bs : List ℕ) → IsBytes bs → all is_ascii_hexdigit (to_hex bs) ≡ true
unfolding to_hex all is_ascii_hexdigit
to_hex-digits [] h = refl
to_hex-digits (b ∷ bs) h = ground (arith, to_hex-digits bs h.1)

length-to_hex : (bs : List ℕ) → length (to_hex bs) ≡ length bs + length bs
unfolding to_hex
length-to_hex [] = omega arith
length-to_hex (b ∷ bs) = omega (arith, length-to_hex bs)

pub toy_encodings-IsLawful : Laws.IsLawful toy_encodings
toy_encodings-IsLawful = record {
  bs58 = λ bs h. ap ok (narrow-wide bs h);
  bs58_solid = λ bs h. wide-IsSolid bs h;
  bs58_text = λ bs h. wide-IsText bs h;
  bs58_short = λ bs h. omega (arith, length-wide bs, h.size);
  hex = λ bs h. ap ok (of_hex-to_hex bs h);
  hex_digits = λ bs h. to_hex-digits bs h;
  hex_size = λ bs h. length-to_hex bs;
}

narrow-IsBytes : (s : Text) → IsBytes (narrow s)
unfolding narrow
narrow-IsBytes [] = tt
narrow-IsBytes (c ∷ s) = (omega arith, narrow-IsBytes s)

of_hex-IsBytes : (s : Text) → IsBytes (of_hex s)
unfolding of_hex
of_hex-IsBytes [] = tt
of_hex-IsBytes (c ∷ []) = tt
of_hex-IsBytes (c ∷ d ∷ s) = (omega arith, of_hex-IsBytes s)

pub toy_encodings-GivesBytes : Laws.GivesBytes toy_encodings
toy_encodings-GivesBytes = record {
  bs58_bytes = λ s bs e. rw (← ok-injective e) (narrow-IsBytes s);
  hex_bytes = λ s bs e. rw (← ok-injective e) (of_hex-IsBytes s);
}
