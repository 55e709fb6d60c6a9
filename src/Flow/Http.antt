-- ===== src/Flow/Http.antt =====
-- The flow over the HTTP/3 client.
use sqnr.Base.{ℕ, ◌≡◌, ◌∙◌, Option, none, some, List, ok, err, Result, length}
use sqnr.Text.Utf8.{Text, codes}
use sqnr.Core.Key.{PubKey}
use sqnr.Core.Tx.{Operation, signing_bytes}
use sqnr.Core.Signed.{Crypto, encode_signed}
use sqnr.Card.{Device}
use sqnr.Signer.{Backend, sign}
use sqnr.Client
use sqnr.Client.Exchange.{Exchange, request-Exchange}
use sqnr.Client.Total.{IsFinite, enough, whole_request, request-whole_request, over_http}
use sqnr.Flow.{Json, challenge_path, command_path, World, sign_and_submit, value_or_null}
use sqnr.Flow.Outcome.{sign_and_submit-ok}

-- The value that a body holds, or null where it is no JSON.
abbrev pub Held : (J : Json) → Result J.Value Text → J.Value → Type 0
Held J (ok x) v = v ≡ x
Held J (err e) v = v ≡ J.null

module _ (H : Client.Http) (fin : IsFinite H) (c : Client.Client H) where
  whole-Exchange :
      (method path : Text) (body : Option (List ℕ)) (w : H.World) (status : ℕ) (bytes : List ℕ)
      → (whole_request H fin c.send method path body w).0 ≡ ok (status, bytes)
      → Exchange H c.send method path body w status bytes
          (whole_request H fin c.send method path body w).1
  whole-Exchange method path body w status bytes e =
      request-Exchange H (enough H fin c.send method path body w) c.send method path body status
        bytes w _
        (request-whole_request H fin c.send method path body w ∙ λ i.
          some (e i, (whole_request H fin c.send method path body w).1))

  module _ (C : Crypto) (D : Device) (J : Json) where
    Held-value_or_null :
        (r : Result J.Value Text) (v : J.Value)
        → v ≡ value_or_null C D (over_http H fin c) J r
        → Held J r v
    unfolding value_or_null
    Held-value_or_null (ok x) v e = e
    Held-value_or_null (err x) v e = e

    -- Over the real client, a run that returns a value made two requests: a GET of the challenge at
    -- https://sqex, without a body, which answered 200 with a nonce of 32 bytes; and, from the
    -- connection as that left it, a POST of the transaction over that nonce with the backend's signature,
    -- which answered 200. Each was built, sent with its body, finished and answered on one stream, to the
    -- end of the response. The value is what the last answer holds, or null where it is no JSON.
    pub sign_and_submit-request :
        (b : Backend C) (server : PubKey) (ops : List Operation) (v : J.Value)
        (w w' : World C D (over_http H fin c) J)
        → sign_and_submit C D (over_http H fin c) J b server ops w ≡ (ok v, w')
        → (nonce : List ℕ) × (net : H.World) × Exchange H c.send
            (codes "GET")
            (codes "/admin/challenge")
            none
            w.net
            200
            nonce
            net
          × (length nonce ≡ 32)
          × (signature : List ℕ) × ((sign C D b
                (signing_bytes C.digest (record { server = server; nonce = nonce; ops = ops }))
                w.thread).0
              ≡ ok signature)
          × (reply : List ℕ) × (net' : H.World) × Exchange H c.send
              (codes "POST")
              (codes "/admin/command")
              (some (
                encode_signed (record {
                  transaction = record { server = server; nonce = nonce; ops = ops };
                  admin = b.public;
                  signature = signature;
                })))
              net
              200
              reply
              net'
          × Held J (J.from_slice reply) v
    sign_and_submit-request b server ops v w w' e =
        let (some_ops, (nonce, got, size, (signature, reply, signed, posted, same))) =
          sign_and_submit-ok C D (over_http H fin c) J b server ops v w w' e in
        (
          nonce,
          _,
          whole-Exchange (codes "GET") challenge_path none w.net 200 nonce got,
          size,
          signature,
          signed,
          reply,
          _,
          whole-Exchange (codes "POST") command_path _ _ 200 reply posted,
          Held-value_or_null (J.from_slice reply) v same,
        )
