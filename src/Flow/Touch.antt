-- ===== src/Flow/Touch.antt =====
-- The flow with a YubiKey: what the server is sent.
use sqnr.Base.{ℕ, ◌≡◌, refl, ◌∙◌, ap, some, List, [], ◌∷◌, ◌++◌, ok, length}
use sqnr.Core.Key.{PubKey}
use sqnr.Core.Tx.{Operation, Transaction, signing_bytes}
use sqnr.Core.Tx.Valid.{IsTransaction}
use sqnr.Core.Signed.{
  Crypto, SignedTransaction, encode_signed, decode, verify, create, software_signer,
}
use sqnr.Core.Signed.Verify
use sqnr.Card
use sqnr.Card.Methods
use sqnr.Signer.{Backend, inner_sign, is_yubikey, sign, yubikey}
use sqnr.Flow.{
  Client, Json, got, reviewed, touched, signed, posted, challenge_path, command_path, World,
  sign_and_submit,
}
use sqnr.Flow.Order.{flow_events, submit_events, sign_and_submit_trace}

-- A card that signs with the key `k` once it is ready: its PIN was given, and it is there.
pub record SignsWith (C : Crypto) (D : Card.Device) (k : C.SigningKey) : Type 1 where
  pub IsReady : D.Connection → D.World → Type 0
  pub begins :
      (c : D.Connection) (w : D.World)
      → IsReady c w
      → (v : D.World) × (D.transaction c w ≡ (ok tt, v)) × IsReady c v
  pub signs :
      (c : D.Connection) (msg : List ℕ) (w : D.World)
      → IsReady c w
      → (v : D.World) × (D.internal_authenticate c msg w ≡ (ok (C.sign k msg), v))

-- The backend for that card.
abbrev pub touch : (C : Crypto) → C.SigningKey → Backend C
touch C k = yubikey C (record { raw = C.to_bytes (C.verifying_key k) })

module _ (C : Crypto) (L : Verify.IsLawful C) (D : Card.Device) (N : Client) (J : Json)
    (k : C.SigningKey) (S : SignsWith C D k) where
  sign-touch :
      (c : D.Connection) (msg : List ℕ) (w : D.World)
      → S.IsReady c w
      → (sign C D (touch C k) msg (some c, w)).0 ≡ ok (C.sign k msg)
  unfolding sign inner_sign yubikey Methods.sign Methods.of_signature Card.turn Card.handle_req
      Card.started Card.handle Card.finished Card.sign_msg Card.sized Card.held Card.is_comm_failure
  sign-touch c msg w h =
      let (u, begun, ready) = S.begins c w h in
      let (v, made) = S.signs c msg u ready in rw (begun, made, (L.sign_size k msg).size) refl

  ready_events :
      (t : Transaction)
      → submit_events C (touch C k) t (ok (C.sign k (signing_bytes C.digest t)))
        ≡ reviewed t
          ∷ touched
          ∷ signed (signing_bytes C.digest t)
          ∷ posted command_path (encode_signed (create C t (software_signer C k)))
          ∷ []
  unfolding yubikey is_yubikey create software_signer
  ready_events t = refl

  fresh_events :
      (c : D.Connection) (u : D.World) (server : PubKey) (ops : List Operation) (nonce : List ℕ)
      → S.IsReady c u
      → length nonce ≡ 32
      → let t : Transaction = record { server = server; nonce = nonce; ops = ops } in
        flow_events C
          (touch C k)
          server
          ops
          (ok (200, nonce))
          (λ x. (sign C D (touch C k) (signing_bytes C.digest x) (some c, u)).0)
        ≡ reviewed t
          ∷ touched
          ∷ signed (signing_bytes C.digest t)
          ∷ posted command_path (encode_signed (create C t (software_signer C k)))
          ∷ []
  fresh_events c u server ops nonce ready h =
      let t : Transaction = record { server = server; nonce = nonce; ops = ops } in
      rw h (
        ap (submit_events C (touch C k) t) (sign-touch c (signing_bytes C.digest t) u ready)
        ∙ ready_events t)

  -- With a YubiKey that is ready in the session that the thread holds and signs with the key `k`, a
  -- challenge of 32 bytes and a batch within the bounds: the operator is shown one transaction, over the
  -- server's nonce, and then asked for the touch; the bytes that are posted decode to that transaction,
  -- signed; and the server accepts it, as if a software key had signed it.
  pub sign_and_submit-touched :
      (c : D.Connection) (server : PubKey) (op : Operation) (ops : List Operation) (nonce : List ℕ)
      (w : World C D N J) (u : D.World)
      → w.thread ≡ (some c, u)
      → S.IsReady c u
      → (N.get challenge_path w.net).0 ≡ ok (200, nonce)
      → let t : Transaction = record { server = server; nonce = nonce; ops = op ∷ ops } in
        IsTransaction t
        → (body : List ℕ) × (s : SignedTransaction) × ((sign_and_submit C D N J
              (touch C k)
              server
              (op ∷ ops)
              w).1.trace
            ≡ w.trace
              ++ (got challenge_path
                  ∷ reviewed t
                  ∷ touched
                  ∷ signed (signing_bytes C.digest t)
                  ∷ posted command_path body
                  ∷ []))
          × (decode body ≡ ok s)
          × (s ≡ create C t (software_signer C k))
          × (verify C s server ≡ ok tt)
  sign_and_submit-touched c server op ops nonce w u held ready e h =
      let t : Transaction = record { server = server; nonce = nonce; ops = op ∷ ops } in
      let (back, same, accepted) = Verify.decode-create C L k t h in
      (
        encode_signed (create C t (software_signer C k)),
        create C t (software_signer C k),
        sign_and_submit_trace C D N J (touch C k) server op ops w
            ∙ rw (e, held, fresh_events c u server (op ∷ ops) nonce ready h.nonce.size),
        back,
        refl,
        accepted,
      )
