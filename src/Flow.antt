-- ===== src/Flow.antt =====
-- crates/sqnr/src/flow.rs: `sign_and_submit`, the one admin transaction.
pub mod Unlocked
pub mod Order
pub mod Accepted
pub mod Outcome
pub mod Spec
pub mod Http
pub mod Touch
pub mod Announced
use sqnr.Base.{
  ℕ, Bool, true, false, ◌||◌, Option, none, some, List, [], ◌∷◌, ◌++◌, Result, ok, err, length,
  ◌==◌, not, if◌then◌else◌,
}
use sqnr.Text.Utf8.{Text, codes}
use sqnr.Text.Format.{show}
use sqnr.Text.Trim.{trim}
use sqnr.Core.Key.{PubKey}
use sqnr.Core.Tx.{Operation, Transaction, signing_bytes}
use sqnr.Core.Signed.{Crypto, SignedTransaction, encode_signed}
use sqnr.Effect.{Act, pure, fail, ◌>>=◌, ◌>>◌}
use sqnr.Card.{Device, Thread}
use sqnr.Signer.{Backend, is_yubikey, sign}

-- What the flow calls of `Client`: a request returns a status and a body.
pub record Client : Type 1 where
  pub Net : Type 0
  pub get : Text → Act Net (ℕ × List ℕ)
  pub post : Text → List ℕ → Act Net (ℕ × List ℕ)

-- The crate `serde_json`; `str_field v k` is `v[k].as_str()`.
pub record Json : Type 1 where
  pub Value : Type 0
  pub null : Value
  pub from_slice : List ℕ → Result Value Text
  pub str_field : Value → Text → Option Text

-- What the flow does, in the order in which it does it.
pub data Event : Type 0 where
  got : Text → Event
  reviewed : Transaction → Event
  touched : Event
  signed : List ℕ → Event
  posted : Text → List ℕ → Event

abbrev pub challenge_path : Text
challenge_path = codes "/admin/challenge"

abbrev pub command_path : Text
command_path = codes "/admin/command"

module _ (C : Crypto) (D : Device) (N : Client) (J : Json) where
  -- The network, the card thread, and the events so far, the latest last.
  pub record World : Type 0 where
    pub net : N.Net
    pub thread : Thread D
    pub trace : List Event

  unfoldable pub emit : Event → Act World (Unit {0})
  emit e w = (ok tt, record w { trace = w.trace ++ (e ∷ []) })

  unfoldable pub client_get : Text → Act World (ℕ × List ℕ)
  client_get path w =
      let r = N.get path w.net in (r.0, record w { net = r.1; trace = w.trace ++ (got path ∷ []) })

  unfoldable pub client_post : Text → List ℕ → Act World (ℕ × List ℕ)
  client_post path body w =
      let r = N.post path body w.net in
      (r.0, record w { net = r.1; trace = w.trace ++ (posted path body ∷ []) })

  unfoldable pub backend_sign : Backend C → List ℕ → Act World (List ℕ)
  backend_sign b msg w =
      let r = sign C D b msg w.thread in
      (r.0, record w { thread = r.1; trace = w.trace ++ (signed msg ∷ []) })

  str_or : Option Text → Text → Text
  str_or (some s) d = s
  str_or none d = d

  -- `serde_json::from_slice(&body).unwrap_or(Value::Null)`
  unfoldable pub value_or_null : Result J.Value Text → J.Value
  value_or_null (ok v) = v
  value_or_null (err e) = J.null

  unfoldable pub refusal : J.Value → ℕ → Text
  unfolding str_or
  refusal v status =
      let detail = str_or (J.str_field v (codes "detail")) [] in
      let kind = str_or (J.str_field v (codes "error")) (codes "error") in
      trim (kind ++ (codes " (" ++ (show status ++ (codes ") " ++ detail))))

  -- What is made of the server's answer.
  unfoldable pub answer : ℕ → List ℕ → Act World J.Value
  unfolding value_or_null
  answer status body =
      let v = value_or_null (J.from_slice body) in
      if not (status == 200) then fail (refusal v status) else pure v

  -- From the transaction on: show it, sign it, submit it.
  unfoldable pub submit : Backend C → Transaction → Act World J.Value
  submit b t = do
    emit (reviewed t)
    (if is_yubikey C b then emit touched else pure tt)
    signature ← backend_sign b (signing_bytes C.digest t)
    (status, body) ←
        client_post command_path
          (encode_signed (record { transaction = t; admin = b.public; signature = signature }))
    answer status body

  -- The challenge's answer, checked.
  unfoldable pub challenged : Backend C → PubKey → List Operation → ℕ → List ℕ → Act World J.Value
  challenged b server ops cs nonce =
      if not (cs == 200) || not (length nonce == 32)
      then fail (codes "challenge failed (status " ++ (show cs ++ codes ")"))
      else submit b (record { server = server; nonce = nonce; ops = ops })

  unfoldable pub sign_and_submit : Backend C → PubKey → List Operation → Act World J.Value
  sign_and_submit b server [] = fail (codes "nothing to sign (empty transaction)")
  sign_and_submit b server (op ∷ ops) = do
    (cs, nonce) ← client_get challenge_path
    challenged b server (op ∷ ops) cs nonce
