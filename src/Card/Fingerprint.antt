-- ===== src/Card/Fingerprint.antt =====
-- crates/sqnr/src/card.rs: `ed25519_fingerprint`. SHA-1 is a parameter.
use sqnr.Base.{
  ℕ, ◌/◌, ◌%◌, ◌<◌, ◌≡◌, refl, List, [], ◌∷◌, ◌++◌, Result, ok, err, ok-injective, length,
  length-append, arith,
}
use sqnr.Text.Utf8.{Text, codes}
use sqnr.Core.Bytes.{u32_mod, to_be_bytes, to_be_bytes-IsArray}
use sqnr.Core.Tx.Injective.{to_be_bytes_split}
use sqnr.Card.Material.{KeyMaterial, ecc, rsa}

-- `(n as u16).to_be_bytes()`
unfoldable pub u16_to_be_bytes : ℕ → List ℕ
u16_to_be_bytes n = (n / 256 % 256) ∷ (n % 256) ∷ []

-- The OID of Ed25519.
abbrev pub oid : List ℕ
oid = 0x2b ∷ 0x06 ∷ 0x01 ∷ 0x04 ∷ 0x01 ∷ 0xda ∷ 0x47 ∷ 0x0f ∷ 0x01 ∷ []

-- The body of the public-key packet, for the creation time `ts`.
unfoldable pub packet_body : ℕ → List ℕ → List ℕ
unfolding u16_to_be_bytes
packet_body ts point =
    0x04 ∷ to_be_bytes ts
    ++ (0x16 ∷ (length oid % 256) ∷ oid ++ (u16_to_be_bytes 263 ++ (0x40 ∷ point)))

-- What is hashed: the tag, the length of the body as a `u16`, and the body.
unfoldable pub hashed : ℕ → List ℕ → List ℕ
unfolding u16_to_be_bytes
hashed ts point = let body = packet_body ts point in 0x99 ∷ u16_to_be_bytes (length body) ++ body

module _ (sha1 : List ℕ → List ℕ) where
  unfoldable pub ed25519_fingerprint : KeyMaterial → ℕ → Result (List ℕ) Text
  ed25519_fingerprint (ecc point) ts = ok (sha1 (hashed ts point))
  ed25519_fingerprint rsa ts = err (codes "expected an ECC public key")

length-packet_body :
    (ts : ℕ) (point : List ℕ) → length point ≡ 32 → length (packet_body ts point) ≡ 51
unfolding packet_body
length-packet_body ts point h = omega (
  arith,
  length-append (to_be_bytes ts) (0x16 ∷ 9 ∷ oid ++ (1 ∷ 7 ∷ 0x40 ∷ point)),
  (to_be_bytes-IsArray ts).size,
)

-- For a 32-byte point the hashed text is the v4 packet of RFC 4880: 54 bytes, the header giving the
-- body's length, 51.
pub hashed_packet :
    (ts : ℕ) (point : List ℕ)
    → length point ≡ 32
    → (hashed ts point ≡ 0x99 ∷ 0x00 ∷ 0x33 ∷ packet_body ts point)
      × (length (hashed ts point) ≡ 54)
unfolding hashed
hashed_packet ts point h =
    rw (length-packet_body ts point h) (refl, omega (arith, length-packet_body ts point h))

-- The packet fixes the key and its creation time.
packet_body-injective :
    (ts us : ℕ) (p q : List ℕ)
    → ts < u32_mod
    → us < u32_mod
    → packet_body ts p ≡ packet_body us q
    → (ts ≡ us) × (p ≡ q)
unfolding packet_body
packet_body-injective ts us p q ht hu e =
    let (time, left) =
      to_be_bytes_split ts us (0x16 ∷ 9 ∷ oid ++ (1 ∷ 7 ∷ 0x40 ∷ p))
        (0x16 ∷ 9 ∷ oid ++ (1 ∷ 7 ∷ 0x40 ∷ q)) ht hu (cc) in
    (time, cc (left))

hashed-injective :
    (ts us : ℕ) (p q : List ℕ)
    → ts < u32_mod
    → us < u32_mod
    → length p ≡ 32
    → length q ≡ 32
    → hashed ts p ≡ hashed us q
    → (ts ≡ us) × (p ≡ q)
hashed-injective ts us p q ht hu hp hq e =
    let (first, size) = hashed_packet ts p hp in
    let (second, size') = hashed_packet us q hq in
    packet_body-injective ts us p q ht hu (cc (first, second, e))

module _ (sha1 : List ℕ → List ℕ) where
  -- Two 32-byte keys, or one key at two creation times of 32 bits, have different fingerprints, unless
  -- SHA-1 collides on their packets.
  pub ed25519_fingerprint-injective :
      (ts us : ℕ) (p q : List ℕ)
      → ts < u32_mod
      → us < u32_mod
      → length p ≡ 32
      → length q ≡ 32
      → (sha1 (hashed ts p) ≡ sha1 (hashed us q) → hashed ts p ≡ hashed us q)
      → ed25519_fingerprint sha1 (ecc p) ts ≡ ed25519_fingerprint sha1 (ecc q) us
      → (ts ≡ us) × (p ≡ q)
  unfolding ed25519_fingerprint
  ed25519_fingerprint-injective ts us p q ht hu hp hq apart e =
      hashed-injective ts us p q ht hu hp hq (apart (ok-injective e))
