-- ===== src/Core/Signed/Verify.antt =====
-- What `SignedTransaction::verify` accepts.
use sqnr.Base.{
  ℕ, ◌≡◌, ◌≢◌, refl, ◌∙◌, ap, true, List, ◌++◌, ok, err, ◌↔◌, length, length-append, arith, ◌=?◌,
  =?_iff, =?_refl, if◌then◌else◌, Result-cases, Bool-cases, inl, inr,
}
use sqnr.Text.Utf8.{Text, codes}
use sqnr.Core.Bytes.{IsArray}
use sqnr.Core.Error.{key, wrong_server, bad_signature}
use sqnr.Core.Key.{PubKey}
use sqnr.Core.Tx.{Transaction, encode, signing_bytes, tx_context}
use sqnr.Core.Tx.Valid.{IsTransaction}
use sqnr.Core.Tx.Injective.{FitsTransaction, append_split, encode-injective}
use sqnr.Core.Signed.{
  Crypto, SignedTransaction, software_signer, create, verify, verifying_key, encode_signed, decode,
}
use sqnr.Core.Signed.Wire.{IsSigned, decode-encode_signed}

-- What the crates promise of an honest key: its public half is a point of the curve, signatures
-- made with it verify, and keys, signatures and digests have their sizes.
pub record IsLawful (C : Crypto) : Type 0 where
  pub from_bytes-to_bytes :
      (k : C.SigningKey) → C.from_bytes (C.to_bytes (C.verifying_key k)) ≡ ok (C.verifying_key k)
  pub verify-sign :
      (k : C.SigningKey) (m : List ℕ) → C.verify (C.verifying_key k) m (C.sign k m) ≡ true
  pub to_bytes_size : (k : C.SigningKey) → IsArray 32 (C.to_bytes (C.verifying_key k))
  pub sign_size : (k : C.SigningKey) (m : List ℕ) → IsArray 64 (C.sign k m)
  pub digest_size : (m : List ℕ) → IsArray 32 (C.digest m)

same_key : (a b : PubKey) → a.raw ≡ b.raw → a ≡ b
same_key a b e = λ i. record { raw = e i }

module _ (C : Crypto) where
  -- What `verify` accepts is addressed to this server, and its admin key is a point of the curve,
  -- which verifies the signature over the signing bytes.
  verify_sound :
      (s : SignedTransaction) (server : PubKey)
      → verify C s server ≡ ok tt
      → (s.transaction.server ≡ server)
        × ((vk : C.VerifyingKey) × (C.from_bytes s.admin.raw ≡ ok vk)
            × (C.verify vk (signing_bytes C.digest s.transaction) s.signature ≡ true))
  unfolding verify verifying_key
  verify_sound s server e = elim (Bool-cases (s.transaction.server.raw =? server.raw)) [
    | inr other ↦ cc (rw (other, verify) at e)
    | inl here ↦ elim (Result-cases (C.from_bytes s.admin.raw)) [
      | inr (x, bad) ↦ cc (rw (here, bad, verify) at e)
      | inl (vk, good) ↦
          (same_key _ _ ((=?_iff _ _).0 here), (vk, good, ground (arith, here, good)))
    ]
  ]

  -- A message to this server whose admin key is a point of the curve stands and falls with its
  -- signature.
  verify_complete :
      (s : SignedTransaction) (server : PubKey) (vk : C.VerifyingKey)
      → s.transaction.server ≡ server
      → C.from_bytes s.admin.raw ≡ ok vk
      → verify C s server ≡ (
          if C.verify vk (signing_bytes C.digest s.transaction) s.signature
          then ok tt
          else err bad_signature)
  unfolding verify verifying_key
  verify_complete s server vk here good =
      rw (ap (λ (k : PubKey). k.raw) here, =?_refl server.raw, good)

  -- Exactly those messages are accepted that are addressed to this server, with an admin key that is a
  -- point of the curve and verifies the signature over the signing bytes.
  pub verify_iff :
      (s : SignedTransaction) (server : PubKey)
      → (verify C s server ≡ ok tt) ↔ (
          (s.transaction.server ≡ server)
          × ((vk : C.VerifyingKey) × (C.from_bytes s.admin.raw ≡ ok vk)
              × (C.verify vk (signing_bytes C.digest s.transaction) s.signature ≡ true)))
  verify_iff s server = (
    verify_sound s server,
    λ (here, (vk, point, fine)). verify_complete s server vk here point ∙ rw fine,
  )

  -- A message to another server is refused before its key is looked at.
  verify_wrong_server :
      (s : SignedTransaction) (server : PubKey)
      → s.transaction.server ≢ server
      → verify C s server ≡ err wrong_server
  unfolding verify
  verify_wrong_server s server h = elim (Bool-cases (s.transaction.server.raw =? server.raw)) [
    | inl e ↦ absurd (h (same_key _ _ ((=?_iff _ _).0 e)))
    | inr e ↦ rw e
  ]

  -- A message to this server whose admin key is no point of the curve is refused with the reason.
  pub verify_bad_key :
      (s : SignedTransaction) (server : PubKey) (x : Text)
      → s.transaction.server ≡ server
      → C.from_bytes s.admin.raw ≡ err x
      → verify C s server ≡ err (key (codes "not a valid Ed25519 public key: " ++ x))
  unfolding verify verifying_key
  verify_bad_key s server x here bad = rw (ap (λ (k : PubKey). k.raw) here, =?_refl server.raw, bad)

module _ (C : Crypto) (L : IsLawful C) (k : C.SigningKey) where
  -- A transaction signed by a software key is accepted by the server that it names, and refused as
  -- misdirected by every other.
  verify-create :
      (t : Transaction) (server : PubKey)
      → verify C (create C t (software_signer C k)) server
        ≡ (if t.server.raw =? server.raw then ok tt else err wrong_server)
  unfolding create software_signer verify verifying_key
  verify-create t server =
      rw (L.from_bytes-to_bytes k, L.verify-sign k (signing_bytes C.digest t)) (ground arith)

  create-IsSigned :
      (t : Transaction) → IsTransaction t → IsSigned (create C t (software_signer C k))
  unfolding create software_signer
  create-IsSigned t h = record {
    transaction = h;
    admin = L.to_bytes_size k;
    signature = L.sign_size k _;
  }

  -- End to end: the bytes of a signed transaction within the bounds decode to it, and the server
  -- that it names accepts the result.
  pub decode-create :
      (t : Transaction)
      → IsTransaction t
      → let s = create C t (software_signer C k) in
        (decode (encode_signed s) ≡ ok s) × (s.transaction ≡ t) × (verify C s t.server ≡ ok tt)
  decode-create t h = (
    decode-encode_signed _ (create-IsSigned t h),
    unfold create in refl,
    verify-create t t.server ∙ rw (=?_refl t.server.raw),
  )

  -- The card is asked to sign 42 bytes, however large the batch is.
  length-signing_bytes : (t : Transaction) → length (signing_bytes C.digest t) ≡ 42
  unfolding signing_bytes
  length-signing_bytes t =
      omega (arith, length-append tx_context (C.digest (encode t)), (L.digest_size (encode t)).size)

module _ (C : Crypto) where
  -- For transactions that fit the length fields, the signed message fixes the transaction, summaries
  -- and details included, unless SHA-256 collides on the two encodings.
  pub signing_bytes-injective :
      (t u : Transaction)
      → FitsTransaction t
      → FitsTransaction u
      → (C.digest (encode t) ≡ C.digest (encode u) → encode t ≡ encode u)
      → signing_bytes C.digest t ≡ signing_bytes C.digest u
      → t ≡ u
  unfolding signing_bytes
  signing_bytes-injective t u ht hu no_collision e =
      encode-injective t u ht hu (no_collision (append_split tx_context tx_context _ _ refl e).1)

module _ (C : Crypto) (L : IsLawful C) (k : C.SigningKey) where
  -- A transaction that was changed after signing, in a payload, a summary, the nonce or anywhere
  -- else, is refused as badly signed by the server that it names, where both fit the length fields,
  -- SHA-256 does not collide on the two, and the signature does not verify for the changed message
  -- unless that is the signed one.
  pub verify_tampered :
      (t u : Transaction)
      → FitsTransaction t
      → FitsTransaction u
      → (C.digest (encode u) ≡ C.digest (encode t) → encode u ≡ encode t)
      → (C.verify
              (C.verifying_key k)
              (signing_bytes C.digest u)
              (C.sign k (signing_bytes C.digest t))
            ≡ true
          → signing_bytes C.digest u ≡ signing_bytes C.digest t)
      → u ≢ t
      → verify C (record (create C t (software_signer C k)) { transaction = u }) u.server
        ≡ err bad_signature
  unfolding create software_signer
  verify_tampered t u ht hu no_collision unforged changed =
      verify_complete C _ u.server (C.verifying_key k) refl (L.from_bytes-to_bytes k)
      ∙ elim (Bool-cases (
          C.verify (C.verifying_key k) (signing_bytes C.digest u)
            (C.sign k (signing_bytes C.digest t)))) [
              | inl good ↦
                  absurd
                    (changed (signing_bytes-injective C u t hu ht no_collision (unforged good)))
              | inr bad ↦ rw bad
            ]
