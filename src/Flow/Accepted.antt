-- ===== src/Flow/Accepted.antt =====
-- What the server is sent, and what a successful run means.
use sqnr.Base.{ℕ, ◌≡◌, refl, ◌∙◌, List, [], ◌∷◌, ◌++◌, ok, length}
use sqnr.Core.Key.{PubKey}
use sqnr.Core.Tx.{Operation, Transaction, signing_bytes}
use sqnr.Core.Tx.Valid.{IsTransaction}
use sqnr.Core.Signed.{
  Crypto, SignedTransaction, encode_signed, decode, verify, create, software_signer,
}
use sqnr.Core.Signed.Verify
use sqnr.Card.{Device}
use sqnr.Signer.{is_yubikey, sign, software}
use sqnr.Flow.{
  Client, Json, got, reviewed, signed, posted, challenge_path, command_path, World, sign_and_submit,
}
use sqnr.Flow.Order.{flow_events, submit_events, sign_and_submit_trace}

module _ (C : Crypto) (L : Verify.IsLawful C) (D : Device) (N : Client) (J : Json)
    (k : C.SigningKey) where
  software_events :
      (t : Transaction) (w : World C D N J)
      → submit_events C
          (software C k)
          t
          (sign C D (software C k) (signing_bytes C.digest t) w.thread).0
        ≡ reviewed t
          ∷ signed (signing_bytes C.digest t)
          ∷ posted command_path (encode_signed (create C t (software_signer C k)))
          ∷ []
  unfolding software sign is_yubikey create
  software_events t w = refl

  fresh_events :
      (server : PubKey) (ops : List Operation) (nonce : List ℕ) (w : World C D N J)
      → length nonce ≡ 32
      → let t : Transaction = record { server = server; nonce = nonce; ops = ops } in
        flow_events C
          (software C k)
          server
          ops
          (ok (200, nonce))
          (λ u. (sign C D (software C k) (signing_bytes C.digest u) w.thread).0)
        ≡ reviewed t
          ∷ signed (signing_bytes C.digest t)
          ∷ posted command_path (encode_signed (create C t (software_signer C k)))
          ∷ []
  fresh_events server ops nonce w h =
      rw h (software_events (record { server = server; nonce = nonce; ops = ops }) w)

  -- With a software identity, a challenge of 32 bytes and a batch within the bounds: the operator is
  -- shown one transaction, over the server's nonce; the bytes that are posted decode to that
  -- transaction, signed, under the key's public half; and the server accepts it.
  pub sign_and_submit-decode :
      (server : PubKey) (op : Operation) (ops : List Operation) (nonce : List ℕ) (w : World C D N J)
      → (N.get challenge_path w.net).0 ≡ ok (200, nonce)
      → let t : Transaction = record { server = server; nonce = nonce; ops = op ∷ ops } in
        IsTransaction t
        → (body : List ℕ) × (s : SignedTransaction) × ((sign_and_submit C D N J
              (software C k)
              server
              (op ∷ ops)
              w).1.trace
            ≡ w.trace
              ++ (got challenge_path
                  ∷ reviewed t
                  ∷ signed (signing_bytes C.digest t)
                  ∷ posted command_path body
                  ∷ []))
          × (decode body ≡ ok s)
          × (s.transaction ≡ t)
          × (s.admin ≡ (software C k).public)
          × (verify C s server ≡ ok tt)
  sign_and_submit-decode server op ops nonce w e h =
      let t : Transaction = record { server = server; nonce = nonce; ops = op ∷ ops } in
      let (back, same, accepted) = Verify.decode-create C L k t h in
      (
        encode_signed (create C t (software_signer C k)),
        create C t (software_signer C k),
        sign_and_submit_trace C D N J (software C k) server op ops w
            ∙ rw (e, fresh_events server (op ∷ ops) nonce w h.nonce.size),
        back,
        same,
        unfold create software in refl,
        accepted,
      )
