-- ===== src/Flow/Outcome.antt =====
-- What a run of `sign_and_submit` returns.
use sqnr.Base.{
  ℕ, ◌||◌, ◌≡◌, ◌≢◌, sym, ◌∙◌, ap, List, [], ◌∷◌, ◌++◌, ok, length, ◌==◌, not, ok-injective,
  Bool-cases, inl, inr, arith,
}
use sqnr.Core.Key.{PubKey}
use sqnr.Core.Tx.{Operation, Transaction, signing_bytes}
use sqnr.Core.Signed.{Crypto, encode_signed}
use sqnr.Effect.{Act, ◌>>=◌, >>=-eq-ok}
use sqnr.Card.{Device}
use sqnr.Signer.{Backend, is_yubikey, sign}
use sqnr.Flow.{
  Client, Json, reviewed, touched, challenge_path, command_path, World, sign_and_submit, challenged,
  submit, answer, emit, client_get, client_post, backend_sign, value_or_null,
}

module _ (C : Crypto) (D : Device) (N : Client) (J : Json) where
  answer-ok :
      (status : ℕ) (body : List ℕ) (v : J.Value) (w w' : World C D N J)
      → answer C D N J status body w ≡ (ok v, w')
      → (status ≡ 200) × (v ≡ value_or_null C D N J (J.from_slice body))
  unfolding answer
  answer-ok status body v w w' e = elim (Bool-cases (not (status == 200))) [
    | inl bad ↦ cc (rw bad at e)
    | inr good ↦ (ground (arith, good), sym (ok-injective (ap (λ x. x.0) (rw good at e))))
  ]

  -- What a success says of the post, from a world with this network.
  post-ok :
      (body : List ℕ) (v : J.Value) (w w' : World C D N J)
      → (client_post C D N J command_path body >>= λ x. answer C D N J x.0 x.1) w ≡ (ok v, w')
      → (reply : List ℕ) × ((N.post command_path body w.net).0 ≡ ok (200, reply))
        × (v ≡ value_or_null C D N J (J.from_slice reply))
  unfolding client_post
  post-ok body v w w' e =
      let ((status, reply), u, first, second) =
        >>=-eq-ok (client_post C D N J command_path body) (λ x. answer C D N J x.0 x.1) {w = w} e in
      let (fine, same) = answer-ok status reply v u w' second in
      (reply, ap (λ x. x.0) first ∙ ap (λ n. ok (n, reply)) fine, same)

  -- The backend signed, and the server answered 200 to the signed transaction; the value is what its
  -- answer holds.
  abbrev pub Submitted : Backend C → Transaction → World C D N J → J.Value → Type 0
  Submitted b t w v =
      (signature : List ℕ) × (reply : List ℕ) × ((sign C D b (signing_bytes C.digest t) w.thread).0
        ≡ ok signature)
      × ((N.post command_path
            (encode_signed (record { transaction = t; admin = b.public; signature = signature }))
            w.net).0
          ≡ ok (200, reply))
      × (v ≡ value_or_null C D N J (J.from_slice reply))

  -- The steps of `submit` from the signing on.
  sign_then_post : Backend C → Transaction → Act (World C D N J) J.Value
  sign_then_post b t = backend_sign C D N J b (signing_bytes C.digest t) >>= λ s.
      client_post C D N J command_path
        (encode_signed (record { transaction = t; admin = b.public; signature = s }))
      >>= λ x. answer C D N J x.0 x.1

  signed-ok :
      (b : Backend C) (t : Transaction) (v : J.Value) (w w' : World C D N J)
      → sign_then_post b t w ≡ (ok v, w')
      → Submitted b t w v
  unfolding sign_then_post backend_sign
  signed-ok b t v w w' e =
      let (s, u, first, second) =
        >>=-eq-ok (backend_sign C D N J b (signing_bytes C.digest t))
          (λ s.
            client_post C D N J command_path
              (encode_signed (record { transaction = t; admin = b.public; signature = s }))
            >>= λ x. answer C D N J x.0 x.1)
          {w = w} e in
      let (reply, posted, same) = post-ok _ v u w' second in
      let net : u.net ≡ w.net = sym (ap (λ x. x.1.net) first) in
      (s, reply, ap (λ x. x.0) first, rw net at posted, same)

  submit-ok :
      (b : Backend C) (t : Transaction) (v : J.Value) (w w' : World C D N J)
      → submit C D N J b t w ≡ (ok v, w')
      → Submitted b t w v
  unfolding submit emit sign_then_post
  submit-ok b t v w w' e = elim (Bool-cases (is_yubikey C b)) [
    | inl touch ↦
        signed-ok b t v (record w { trace = (w.trace ++ (reviewed t ∷ [])) ++ (touched ∷ []) }) w'
          (rw touch at e)
    | inr still ↦
        signed-ok b t v (record w { trace = w.trace ++ (reviewed t ∷ []) }) w' (rw still at e)
  ]

  challenged-ok :
      (b : Backend C) (server : PubKey) (ops : List Operation) (cs : ℕ) (nonce : List ℕ)
      (v : J.Value) (w w' : World C D N J)
      → challenged C D N J b server ops cs nonce w ≡ (ok v, w')
      → (cs ≡ 200)
        × (length nonce ≡ 32)
        × Submitted b (record { server = server; nonce = nonce; ops = ops }) w v
  unfolding challenged
  challenged-ok b server ops cs nonce v w w' e =
      elim (Bool-cases (not (cs == 200) || not (length nonce == 32))) [
        | inl bad ↦ cc (rw bad at e)
        | inr good ↦
            (ground (arith, good), ground (arith, good), submit-ok b _ v w w' (rw good at e))
      ]

  -- A run that returns a value had operations, got 200 and a nonce of 32 bytes, got a signature on
  -- the transaction over that nonce, and got 200 for the post of that signed transaction; the value is
  -- what that answer holds, or null where it is no JSON.
  pub sign_and_submit-ok :
      (b : Backend C) (server : PubKey) (ops : List Operation) (v : J.Value) (w w' : World C D N J)
      → sign_and_submit C D N J b server ops w ≡ (ok v, w')
      → (ops ≢ [])
        × ((nonce : List ℕ) × ((N.get challenge_path w.net).0 ≡ ok (200, nonce))
            × (length nonce ≡ 32)
            × Submitted b
                (record { server = server; nonce = nonce; ops = ops })
                (record w { net = (N.get challenge_path w.net).1 })
                v)
  unfolding sign_and_submit client_get
  sign_and_submit-ok b server [] v w w' e = cc
  sign_and_submit-ok b server (op ∷ ops) v w w' e =
      let ((cs, nonce), u, first, second) =
        >>=-eq-ok (client_get C D N J challenge_path)
          (λ x. challenged C D N J b server (op ∷ ops) x.0 x.1) {w = w} e in
      let (fine, size, done) = challenged-ok b server (op ∷ ops) cs nonce v u w' second in
      let thread : u.thread ≡ w.thread = sym (ap (λ x. x.1.thread) first) in
      let net : u.net ≡ (N.get challenge_path w.net).1 = sym (ap (λ x. x.1.net) first) in
      (
        (λ h. cc),
        (nonce, ap (λ x. x.0) first ∙ ap (λ n. ok (n, nonce)) fine, size, rw (thread, net) at done),
      )
