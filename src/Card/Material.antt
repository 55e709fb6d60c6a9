-- ===== src/Card/Material.antt =====
-- The keys of an OpenPGP card: what crates/sqnr/src/card.rs names of the crate `openpgp_card`.
use sqnr.Base.{ℕ, List}

-- `PublicKeyMaterial`
pub data KeyMaterial : Type 0 where
  ecc : List ℕ → KeyMaterial
  rsa : KeyMaterial

-- `KeyType`: a slot for a key.
pub data KeyType : Type 0 where
  signing : KeyType
  decryption : KeyType
  authentication : KeyType
  attestation : KeyType

-- `EccType`, and two of the curves of `Curve`.
pub data EccType : Type 0 where
  ecdh : EccType
  ecdsa : EccType
  eddsa : EccType

pub data Curve : Type 0 where
  ed25519 : Curve
  cv25519 : Curve
