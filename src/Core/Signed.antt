-- ===== src/Core/Signed.antt =====
-- crates/sqnr-core/src/tx.rs: signers and signed transactions.
pub mod Cuts
pub mod Wire
pub mod Verify
pub mod Prefix
pub mod Refusals
pub mod Limits
pub mod Largest
use sqnr.Base.{
  ℕ, Bool, true, false, List, ◌++◌, Result, ok, err, map_err, and_then, ◌=?◌, not, if◌then◌else◌,
}
use sqnr.Text.Utf8.{Text, codes}
use sqnr.Core.Error.{Error, key, wrong_server, bad_signature}
use sqnr.Core.Key.{PubKey}
use sqnr.Core.Reader.{Reader, Read, pure, ◌>>=◌, array, finish, new}
use sqnr.Core.Tx.{Transaction, encode, decode_from, signing_bytes}

-- The crates `ed25519_dalek` and `sha2`. Keys and signatures are known by their bytes;
-- `VerifyingKey::from_bytes` fails with a message where the bytes are no point of the curve.
pub record Crypto : Type 1 where
  pub SigningKey : Type 0
  pub VerifyingKey : Type 0
  pub from_seed : List ℕ → SigningKey
  pub seed_of : SigningKey → List ℕ
  pub verifying_key : SigningKey → VerifyingKey
  pub sign : SigningKey → List ℕ → List ℕ
  pub from_bytes : List ℕ → Result VerifyingKey Text
  pub to_bytes : VerifyingKey → List ℕ
  pub verify : VerifyingKey → List ℕ → List ℕ → Bool
  pub digest : List ℕ → List ℕ

-- The trait `Signer`.
pub record Signer : Type 0 where
  pub public : List ℕ
  pub sign : List ℕ → List ℕ

pub record SignedTransaction : Type 0 where
  pub transaction : Transaction
  pub admin : PubKey
  pub signature : List ℕ

-- `SignedTransaction::encode`
unfoldable pub encode_signed : SignedTransaction → List ℕ
encode_signed s = encode s.transaction ++ (s.admin.raw ++ s.signature)

-- `SignedTransaction::decode`
unfoldable pub decode_signed : Read SignedTransaction
decode_signed = do
  transaction ← decode_from
  admin ← array 32
  signature ← array 64
  _ ← finish
  pure (record { transaction = transaction; admin = record { raw = admin }; signature = signature })

unfoldable pub decode : List ℕ → Result SignedTransaction Error
decode bs = elim (decode_signed (new bs)) [ ok (s, _) ↦ ok s | err e ↦ err e ]

module _ (C : Crypto) where
  -- `SoftwareSigner`, by its key.
  unfoldable pub software_signer : C.SigningKey → Signer
  software_signer k = record { public = C.to_bytes (C.verifying_key k); sign = C.sign k }

  -- `SoftwareSigner::seed`
  unfoldable pub seed : C.SigningKey → List ℕ
  seed k = C.seed_of k

  -- `SignedTransaction::create`
  unfoldable pub create : Transaction → Signer → SignedTransaction
  create t s = record {
    transaction = t;
    admin = record { raw = s.public };
    signature = s.sign (signing_bytes C.digest t);
  }

  -- `PubKey::verifying_key`
  unfoldable pub verifying_key : PubKey → Result C.VerifyingKey Error
  verifying_key k =
      map_err (C.from_bytes k.raw) (λ e. key (codes "not a valid Ed25519 public key: " ++ e))

  -- `SignedTransaction::verify`
  unfoldable pub verify : SignedTransaction → PubKey → Result (Unit {0}) Error
  verify s expected_server =
      if not (s.transaction.server.raw =? expected_server.raw)
      then err wrong_server
      else and_then (verifying_key s.admin) λ vk.
        if C.verify vk (signing_bytes C.digest s.transaction) s.signature
        then ok tt
        else err bad_signature
