-- ===== src/Flow/Order.antt =====
-- The events of `sign_and_submit`, on every outcome.
use sqnr.Base.{
  ℕ, ◌||◌, ◌≡◌, refl, sym, ◌∙◌, ap, List, [], ◌∷◌, ◌++◌, Result, ok, err, length, ◌==◌, not,
  if◌then◌else◌, append_assoc, append-nil, Bool-cases, Result-cases, inl, inr,
}
use sqnr.Text.Utf8.{Text}
use sqnr.Core.Key.{PubKey}
use sqnr.Core.Tx.{Operation, Transaction, signing_bytes}
use sqnr.Core.Signed.{Crypto, encode_signed}
use sqnr.Effect.{after, ◌>>=◌}
use sqnr.Card.{Device}
use sqnr.Signer.{Backend, is_yubikey, sign}
use sqnr.Flow.{
  Client, Json, Event, got, reviewed, touched, signed, posted, challenge_path, command_path, World,
  sign_and_submit, challenged, submit, answer, emit, client_get, client_post, backend_sign,
}

module _ (C : Crypto) where
  abbrev pub touch_events : Backend C → List Event
  touch_events b = if is_yubikey C b then touched ∷ [] else []

  abbrev pub post_events : Backend C → Transaction → Result (List ℕ) Text → List Event
  post_events b t (err e) = []
  post_events b t (ok signature) =
      posted command_path
        (encode_signed (record { transaction = t; admin = b.public; signature = signature }))
      ∷ []

  -- A transaction is shown; then comes the touch, for a YubiKey; then its signing bytes are signed;
  -- and it is posted only with the signature that this gave.
  abbrev pub submit_events : Backend C → Transaction → Result (List ℕ) Text → List Event
  submit_events b t r =
      reviewed t ∷ touch_events b ++ (signed (signing_bytes C.digest t) ∷ post_events b t r)

  -- Nothing is shown or signed unless the server answered 200 with 32 bytes.
  abbrev pub flow_events :
      Backend C
      → PubKey
      → List Operation
      → Result (ℕ × List ℕ) Text
      → (Transaction → Result (List ℕ) Text)
      → List Event
  flow_events b server ops (err e) signature = []
  flow_events b server ops (ok (cs, nonce)) signature =
      let t : Transaction = record { server = server; nonce = nonce; ops = ops } in
      if not (cs == 200) || not (length nonce == 32) then [] else submit_events b t (signature t)

module _ (C : Crypto) (D : Device) (N : Client) (J : Json) where
  answer_world :
      (status : ℕ) (body : List ℕ) (w : World C D N J) → (answer C D N J status body w).1 ≡ w
  unfolding answer
  answer_world status body w = elim (Bool-cases (not (status == 200))) [
    | inl e ↦ rw e
    | inr e ↦ rw e
  ]

  answered_trace :
      (r : Result (ℕ × List ℕ) Text) (w : World C D N J)
      → (after r w (λ x. answer C D N J x.0 x.1)).1.trace ≡ w.trace
  answered_trace (ok (status, body)) w =
      ap (λ (v : World C D N J). v.trace) (answer_world status body w)
  answered_trace (err e) w = refl

  post_trace :
      (b : Backend C) (t : Transaction) (s : List ℕ) (w : World C D N J)
      → ((client_post C D N J command_path
              (encode_signed (record { transaction = t; admin = b.public; signature = s }))
            >>= λ x. answer C D N J x.0 x.1)
          w).1.trace
        ≡ w.trace ++ post_events C b t (ok s)
  unfolding client_post
  post_trace b t s w = answered_trace _ _

  submit_trace :
      (b : Backend C) (t : Transaction) (w : World C D N J)
      → (submit C D N J b t w).1.trace
        ≡ w.trace ++ submit_events C b t (sign C D b (signing_bytes C.digest t) w.thread).0
  unfolding submit emit backend_sign
  submit_trace b t w = elim (Bool-cases (is_yubikey C b)) [
    | inl touch ↦ elim (Result-cases (sign C D b (signing_bytes C.digest t) w.thread).0) [
      | inl (s, e) ↦ rw (touch, e) (post_trace b t s _ ∙ simp append_assoc)
      | inr (x, e) ↦ rw (touch, e) (simp append_assoc)
    ]
    | inr still ↦ elim (Result-cases (sign C D b (signing_bytes C.digest t) w.thread).0) [
      | inl (s, e) ↦ rw (still, e) (post_trace b t s _ ∙ simp append_assoc)
      | inr (x, e) ↦ rw (still, e) (simp append_assoc)
    ]
  ]

  challenged_trace :
      (b : Backend C) (server : PubKey) (ops : List Operation) (r : Result (ℕ × List ℕ) Text)
      (w : World C D N J)
      → (after r w (λ x. challenged C D N J b server ops x.0 x.1)).1.trace
        ≡ w.trace
          ++ flow_events C b server ops r (λ t. (sign C D b (signing_bytes C.digest t) w.thread).0)
  unfolding challenged
  challenged_trace b server ops (err e) w = sym (append-nil w.trace)
  challenged_trace b server ops (ok (cs, nonce)) w =
      elim (Bool-cases (not (cs == 200) || not (length nonce == 32))) [
        | inl bad ↦ rw bad (sym (append-nil w.trace))
        | inr good ↦ rw good (submit_trace b _ w)
      ]

  -- A run with operations asks for a challenge once. Only if the server answers 200 with 32 bytes does
  -- it go on: it shows the transaction over that nonce, asks for the touch where the backend is a
  -- YubiKey, signs that transaction's signing bytes, and posts that transaction with this signature.
  -- Where a step fails nothing follows it.
  pub sign_and_submit_trace :
      (b : Backend C) (server : PubKey) (op : Operation) (ops : List Operation) (w : World C D N J)
      → (sign_and_submit C D N J b server (op ∷ ops) w).1.trace
        ≡ w.trace
          ++ (got challenge_path
              ∷ flow_events C b server
                  (op ∷ ops)
                  (N.get challenge_path w.net).0
                  (λ t. (sign C D b (signing_bytes C.digest t) w.thread).0))
  unfolding sign_and_submit client_get
  sign_and_submit_trace b server op ops w =
      challenged_trace b server (op ∷ ops) (N.get challenge_path w.net).0 _
      ∙ append_assoc w.trace (got challenge_path ∷ []) _
