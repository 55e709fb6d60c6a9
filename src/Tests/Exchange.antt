-- ===== src/Tests/Exchange.antt =====
-- Requests, streams, and the flow over HTTP at concrete inputs.
use sqnr.Base.{
  ℕ, ◌<◌, ◌≡◌, refl, ap, Option, none, some, List, [], ◌∷◌, Result, ok, ◌↔◌, length, replicate,
  arith,
}
use sqnr.Text.Utf8.{Text, codes}
use sqnr.Core.Tx.{signing_bytes}
use sqnr.Core.Signed.{encode_signed}
use sqnr.Signer
use sqnr.Signer.{software, sign}
use sqnr.Client
use sqnr.Client.Reading.{Fetches, request-stream}
use sqnr.Client.Total.{
  IsFinite, request_ends, enough, over_http, whole_request, request-whole_request,
}
use sqnr.Flow
use sqnr.Flow.{challenge_path, command_path, World, sign_and_submit, value_or_null}
use sqnr.Client.Exchange.{Exchange}
use sqnr.Flow.Http.{Held, sign_and_submit-request}
use sqnr.Flow.Spec.{agreed, signer_of, server_of, sign_and_submit-agreed}
use sqnr.Tests.Toy.{toy}
use sqnr.Tests.Machines.{toy_card, toy_net, toy_json}
use sqnr.Tests.Wire.{server}
use sqnr.Tests.Runs.{first, single}

unfoldable pull :
    List (Option (List (List ℕ)))
    → Result (Option (List (List ℕ))) Text × List (Option (List (List ℕ)))
pull [] = (ok none, [])
pull (c ∷ cs) = (ok c, cs)

-- A server whose world is what it still sends: chunks, and the ends of bodies.
abbrev queue : Client.Http
queue = record {
  World = List (Option (List (List ℕ)));
  Address = Unit {0};
  Quic = Unit {0};
  Sender = Unit {0};
  Request = Text;
  RequestStream = Unit {0};
  dial = λ a k c w. (ok tt, w);
  h3_new = λ q w. (ok tt, w);
  build = λ method uri. ok uri;
  send_request = λ s r w. (ok tt, w);
  send_data = λ s bs w. (ok tt, w);
  finish = λ s w. (ok tt, w);
  recv_response = λ s w. (ok 200, w);
  recv_data = λ s w. pull w;
  send_datagram = λ q bs w. (ok tt, w);
  read_datagram = λ q w. (ok [], w);
  max_datagram_size = λ q w. none;
}

pull-falls :
    (w v : List (Option (List (List ℕ)))) (chunk : List (List ℕ))
    → pull w ≡ (ok (some chunk), v)
    → length v < length w
unfolding pull
pull-falls [] v chunk e = cc
pull-falls (c ∷ cs) v chunk e = rw (← ap (λ x. x.1) e) (omega arith)

unfoldable queue-IsFinite : IsFinite queue
queue-IsFinite = record { left = length; falls = λ s w v chunk. pull-falls w v chunk }

abbrev conn : Client.Client queue
conn = record { send = tt; conn = tt }

-- A challenge, and an empty object.
abbrev answers : List (Option (List (List ℕ)))
answers = some (replicate 32 3 ∷ []) ∷ none ∷ some ((123 ∷ []) ∷ (125 ∷ []) ∷ []) ∷ none ∷ []

request-stream_example :
    (Client.request queue 2 tt (codes "GET") (codes "/m") none answers
      ≡ some (ok (200, replicate 32 3), some ((123 ∷ []) ∷ (125 ∷ []) ∷ []) ∷ none ∷ []))
    ↔ Fetches queue 2 conn
        (codes "GET")
        (codes "/m")
        []
        200
        (replicate 32 3)
        answers
        (some ((123 ∷ []) ∷ (125 ∷ []) ∷ []) ∷ none ∷ [])
request-stream_example =
    request-stream queue 2 conn (codes "GET") (codes "/m") [] 200 (replicate 32 3) answers _

request_ends_example :
    (y : Result (ℕ × List ℕ) Text × List (Option (List (List ℕ)))) × (Client.request queue 5 tt
        (codes "GET")
        (codes "/m")
        none
        answers
      ≡ some y)
unfolding queue-IsFinite Client.open_request Client.send_body
request_ends_example =
    request_ends queue queue-IsFinite 5 tt (codes "GET") (codes "/m") none answers (omega arith)

abbrev admin : Signer.Backend toy
admin = software toy (replicate 32 9)

abbrev before : World toy toy_card (over_http queue queue-IsFinite conn) toy_json
before = record { net = answers; thread = (none, 1); trace = [] }

whole-got :
    (method path : Text) (body : Option (List ℕ)) (w w' : List (Option (List (List ℕ))))
    (bytes : List ℕ)
    → Client.request queue (enough queue queue-IsFinite tt method path body w) tt method path body w
      ≡ some (ok (200, bytes), w')
    → whole_request queue queue-IsFinite tt method path body w ≡ (ok (200, bytes), w')
whole-got method path body w w' bytes e =
    let same = request-whole_request queue queue-IsFinite tt method path body w in cc

got_challenge :
    whole_request queue queue-IsFinite tt (codes "GET") challenge_path none answers
    ≡ (ok (200, replicate 32 3), some ((123 ∷ []) ∷ (125 ∷ []) ∷ []) ∷ none ∷ [])
unfolding Client.request Client.respond Client.open_request Client.send_body Client.with_status
    Client.read_body Client.drain pull queue-IsFinite
got_challenge = whole-got (codes "GET") challenge_path none answers _ _ refl

got_reply :
    (body : List ℕ)
    → whole_request queue queue-IsFinite tt
        (codes "POST")
        (codes "/admin/command")
        (some body)
        (some ((123 ∷ []) ∷ (125 ∷ []) ∷ []) ∷ none ∷ [])
      ≡ (ok (200, codes "{}"), [])
unfolding Client.request Client.respond Client.open_request Client.send_body Client.with_status
    Client.read_body Client.drain pull queue-IsFinite
got_reply body = whole-got (codes "POST") command_path (some body) _ [] (codes "{}") refl

sign_and_submit-request_example :
    (nonce : List ℕ) × (net : List (Option (List (List ℕ)))) × Exchange queue conn.send
      (codes "GET")
      (codes "/admin/challenge")
      none
      answers
      200
      nonce
      net
    × (length nonce ≡ 32)
    × (signature : List ℕ) × ((sign toy toy_card admin
          (signing_bytes toy.digest (record single { nonce = nonce }))
          (none, 1)).0
        ≡ ok signature)
    × (reply : List ℕ) × (net' : List (Option (List (List ℕ)))) × Exchange queue conn.send
        (codes "POST")
        (codes "/admin/command")
        (some (
          encode_signed (record {
            transaction = record single { nonce = nonce };
            admin = admin.public;
            signature = signature;
          })))
        net
        200
        reply
        net'
    × Held toy_json (ok reply) (codes "{}")
sign_and_submit-request_example =
    sign_and_submit-request queue queue-IsFinite conn toy toy_card toy_json admin server
      (first ∷ []) (codes "{}") before
      (sign_and_submit toy toy_card (over_http queue queue-IsFinite conn) toy_json admin server
        (first ∷ []) before).1
      (unfold sign_and_submit Flow.client_get Flow.challenged Flow.submit Flow.emit
          Flow.backend_sign Flow.client_post Flow.answer Flow.value_or_null software sign
          Signer.is_yubikey in
        rw got_challenge (rw (got_reply _) refl))

sign_and_submit-agreed_example :
    (sign_and_submit toy toy_card toy_net toy_json admin server
      (first ∷ [])
      (record { net = 0; thread = (none, 1); trace = [] })).0
    ≡ agreed toy toy_card toy_net toy_json
        (signer_of toy toy_card toy_net toy_json admin
          (record { net = 0; thread = (none, 1); trace = [] }))
        (server_of toy toy_card toy_net toy_json
          (record { net = 1; thread = (none, 1); trace = [] }))
        admin.public
        server
        (first ∷ [])
        (ok (200, replicate 32 3))
sign_and_submit-agreed_example =
    sign_and_submit-agreed toy toy_card toy_net toy_json admin server (first ∷ [])
      (record { net = 0; thread = (none, 1); trace = [] })
