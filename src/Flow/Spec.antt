-- ===== src/Flow/Spec.antt =====
-- The one admin transaction as a table of answers.
use sqnr.Base.{
  ℕ, ap, Option, none, some, Bool, true, false, ◌||◌, ◌≡◌, refl, List, [], ◌∷◌, ◌++◌, Result, ok,
  err, length, ◌==◌, not, if◌then◌else◌, Bool-cases, Result-cases, inl, inr,
}
use sqnr.Text.Utf8.{Text, codes}
use sqnr.Text.Format.{show}
use sqnr.Text.Trim.{trim, trim_start, trim_end, cons_end, is_whitespace}
use sqnr.Text.TrimLaws.{trim_end-append}
use sqnr.Core.Key.{PubKey}
use sqnr.Core.Tx.{Operation, Transaction, signing_bytes}
use sqnr.Core.Signed.{Crypto, SignedTransaction, encode_signed}
use sqnr.Effect.{after}
use sqnr.Card.{Device}
use sqnr.Signer.{Backend, is_yubikey, sign}
use sqnr.Flow.{
  Client, Json, challenge_path, command_path, World, sign_and_submit, challenged, submit, answer,
  emit, client_get, client_post, backend_sign, value_or_null, refusal,
}

-- What an operator reads where the server refused: what the server calls the error and says of it, where
-- it does, with the status. White space at the ends is left out.
abbrev pub refused : Option Text → Option Text → ℕ → Text
refused none none n = codes "error (" ++ (show n ++ codes ")")
refused none (some detail) n = trim (codes "error (" ++ (show n ++ (codes ") " ++ detail)))
refused (some kind) none n = trim (kind ++ (codes " (" ++ (show n ++ codes ") ")))
refused (some kind) (some detail) n =
    trim (kind ++ (codes " (" ++ (show n ++ (codes ") " ++ detail))))

module _ (C : Crypto) (D : Device) (N : Client) (J : Json) where
  -- The value that a body holds, or null where it is no JSON.
  abbrev pub held : Result J.Value Text → J.Value
  held (ok v) = v
  held (err e) = J.null

  refusal-refused :
      (v : J.Value) (n : ℕ) (kind detail : Option Text)
      → J.str_field v (codes "error") ≡ kind
      → J.str_field v (codes "detail") ≡ detail
      → refusal C D N J v n ≡ refused kind detail n
  unfolding refusal trim trim_start trim_end cons_end is_whitespace
  refusal-refused v n none none h k =
      rw (h, k) (trim_end-append (codes "error (" ++ show n) (41 ∷ 32 ∷ []) 41 [] refl)
  refusal-refused v n none (some d) h k = rw (h, k) refl
  refusal-refused v n (some s) none h k = rw (h, k) refl
  refusal-refused v n (some s) (some d) h k = rw (h, k) refl

  value_or_null-held : (r : Result J.Value Text) → value_or_null C D N J r ≡ held r
  unfolding value_or_null
  value_or_null-held (ok v) = refl
  value_or_null-held (err e) = refl

  -- What is made of each answer that the parties may give: `chal` is the server's to the request for a
  -- challenge, `signs` the backend's to a transaction, `takes` the server's to a signed transaction.
  module _ (signs : Transaction → Result (List ℕ) Text)
      (takes : SignedTransaction → Result (ℕ × List ℕ) Text) where
    abbrev pub accepted : Result (ℕ × List ℕ) Text → Result J.Value Text
    accepted (err e) = err e
    accepted (ok (status, body)) =
        let v = held (J.from_slice body) in
        if status == 200
        then ok v
        else err (refused (J.str_field v (codes "error")) (J.str_field v (codes "detail")) status)

    abbrev pub authorized : Transaction → PubKey → Result (List ℕ) Text → Result J.Value Text
    authorized t admin (err e) = err e
    authorized t admin (ok s) =
        accepted (takes (record { transaction = t; admin = admin; signature = s }))

    abbrev pub agreed :
        PubKey → PubKey → List Operation → Result (ℕ × List ℕ) Text → Result J.Value Text
    agreed admin server [] chal = err (codes "nothing to sign (empty transaction)")
    agreed admin server (op ∷ ops) (err e) = err e
    agreed admin server (op ∷ ops) (ok (status, nonce)) =
        let t : Transaction = record { server = server; nonce = nonce; ops = op ∷ ops } in
        if not (status == 200) || not (length nonce == 32)
        then err (codes "challenge failed (status " ++ (show status ++ codes ")"))
        else authorized t admin (signs t)

  -- The parties, as they are when the run begins.
  abbrev pub signer_of : Backend C → World C D N J → Transaction → Result (List ℕ) Text
  signer_of b w t = (sign C D b (signing_bytes C.digest t) w.thread).0

  abbrev pub server_of : World C D N J → SignedTransaction → Result (ℕ × List ℕ) Text
  server_of w s = (N.post command_path (encode_signed s) w.net).0

  not_if : {A : Type 0} (b : Bool) (x y : A) → (if not b then y else x) ≡ (if b then x else y)
  not_if true x y = refl
  not_if false x y = refl

  answer-accepted :
      (signs : Transaction → Result (List ℕ) Text)
      (takes : SignedTransaction → Result (ℕ × List ℕ) Text) (r : Result (ℕ × List ℕ) Text)
      (w : World C D N J)
      → (after r w (λ x. answer C D N J x.0 x.1)).0 ≡ accepted signs takes r
  unfolding answer
  answer-accepted signs takes (err e) w = refl
  answer-accepted signs takes (ok (status, body)) w = elim (Bool-cases (status == 200)) [
    | inl fine ↦ rw fine (ap ok (value_or_null-held (J.from_slice body)))
    | inr bad ↦
        rw (bad, value_or_null-held (J.from_slice body))
          (ap err (refusal-refused (held (J.from_slice body)) status _ _ refl refl))
  ]

  submit-authorized :
      (b : Backend C) (t : Transaction) (w : World C D N J)
      → (submit C D N J b t w).0
        ≡ authorized (signer_of b w) (server_of w) t b.public (signer_of b w t)
  unfolding submit emit backend_sign client_post
  submit-authorized b t w = elim (Bool-cases (is_yubikey C b)) [
    | inl touch ↦ elim (Result-cases (signer_of b w t)) [
      | inl (s, e) ↦ rw (touch, e) (answer-accepted (signer_of b w) (server_of w) _ _)
      | inr (x, e) ↦ rw (touch, e)
    ]
    | inr still ↦ elim (Result-cases (signer_of b w t)) [
      | inl (s, e) ↦ rw (still, e) (answer-accepted (signer_of b w) (server_of w) _ _)
      | inr (x, e) ↦ rw (still, e)
    ]
  ]

  challenged-agreed :
      (b : Backend C) (server : PubKey) (op : Operation) (ops : List Operation)
      (r : Result (ℕ × List ℕ) Text) (w : World C D N J)
      → (after r w (λ x. challenged C D N J b server (op ∷ ops) x.0 x.1)).0
        ≡ agreed (signer_of b w) (server_of w) b.public server (op ∷ ops) r
  unfolding challenged
  challenged-agreed b server op ops (err e) w = refl
  challenged-agreed b server op ops (ok (status, nonce)) w =
      elim (Bool-cases (not (status == 200) || not (length nonce == 32))) [
        | inl bad ↦ rw bad
        | inr good ↦ rw good (submit-authorized b _ w)
      ]

  -- What a run returns, on every branch and with every message, is what the table makes of the
  -- challenge, of the backend's answer to the transaction over it, and of the server's answer to the
  -- signed transaction, given by the network that the challenge left. Where that answer is 200, the run
  -- returns the value that it holds, or null; else the server's word for the error, or "error", the
  -- status, and what the server says of it, if anything.
  pub sign_and_submit-agreed :
      (b : Backend C) (server : PubKey) (ops : List Operation) (w : World C D N J)
      → (sign_and_submit C D N J b server ops w).0
        ≡ agreed
            (signer_of b w)
            (server_of (record w { net = (N.get challenge_path w.net).1 }))
            b.public
            server
            ops
            (N.get challenge_path w.net).0
  unfolding sign_and_submit client_get
  sign_and_submit-agreed b server [] w = refl
  sign_and_submit-agreed b server (op ∷ ops) w =
      challenged-agreed b server op ops (N.get challenge_path w.net).0 _
