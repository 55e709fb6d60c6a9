-- ===== src/Tests/Runs.antt =====
-- The card, the flow, the client and the sealed seed at concrete inputs.
use sqnr.Base.{ℕ, ◌≡◌, refl, none, some, List, [], ◌∷◌, ok, replicate, arith}
use sqnr.Text.Utf8.{codes, as_bytes}
use sqnr.Core.Tx.{Operation, Transaction, signing_bytes}
use sqnr.Core.Tx.Valid.{IsTransaction}
use sqnr.Core.Signed.{SignedTransaction, decode, verify}
use sqnr.Card
use sqnr.Card.Answers.{AllAnswered, card_loop-AllAnswered}
use sqnr.Card.Fingerprint.{ed25519_fingerprint-injective}
use sqnr.Signer.{software, sign, yubikey}
use sqnr.Flow.{got, reviewed, signed, posted, challenge_path, command_path, World, sign_and_submit}
use sqnr.Flow.Order.{flow_events, sign_and_submit_trace}
use sqnr.Flow.Accepted.{sign_and_submit-decode}
use sqnr.Client.{read_body}
use sqnr.Client.Bodies.{Delivers, ended, chunk, read_body-Delivers}
use sqnr.Identity.{Draws}
use sqnr.Identity.Seal.{IsDraws}
use sqnr.Tests.Toy.{toy, toy-IsLawful}
use sqnr.Tests.Machines.{toy_card, toy_net, toy_json, toy_http, next_chunk}
use sqnr.Tests.Wire.{server}

abbrev requests : List Card.Req
requests = Card.Req.pubkey ∷ Card.Req.unlock (codes "1234") ∷ Card.Req.sign (1 ∷ 2 ∷ []) ∷ []

card_loop-AllAnswered_example : AllAnswered requests (Card.card_loop toy_card requests (none, 0)).0
card_loop-AllAnswered_example = card_loop-AllAnswered toy_card requests (none, 0)

ed25519_fingerprint-injective_example :
    (◌≡◌ {A = ℕ} 1700000000 1700000000) × (replicate {A = ℕ} 32 7 ≡ replicate {A = ℕ} 32 7)
ed25519_fingerprint-injective_example =
    ed25519_fingerprint-injective (λ x. x) 1700000000 1700000000 (replicate 32 7) (replicate 32 7)
      (omega arith) (omega arith) refl refl (λ e. e) refl

abbrev pub first : Operation
first = record { summary = codes "Enable the whitelist"; detail = []; payload = 1 ∷ [] }

abbrev pub single : Transaction
single = record { server = server; nonce = replicate 32 3; ops = first ∷ [] }

pub single-IsTransaction : IsTransaction single
unfolding as_bytes
single-IsTransaction = omega arith

abbrev pub start : World toy toy_card toy_net toy_json
start = record { net = 0; thread = (none, 1); trace = [] }

sign_and_submit_trace_example :
    (sign_and_submit toy toy_card toy_net toy_json
      (yubikey toy server)
      server
      (first ∷ [])
      start).1.trace
    ≡ got challenge_path
      ∷ flow_events toy
          (yubikey toy server)
          server
          (first ∷ [])
          (ok (200, replicate 32 3))
          (λ t. (sign toy toy_card (yubikey toy server) (signing_bytes toy.digest t) (none, 1)).0)
sign_and_submit_trace_example =
    sign_and_submit_trace toy toy_card toy_net toy_json (yubikey toy server) server first [] start

sign_and_submit-decode_example :
    (body : List ℕ) × (s : SignedTransaction) × ((sign_and_submit toy toy_card toy_net toy_json
        (software toy (replicate 32 9))
        server
        (first ∷ [])
        start).1.trace
      ≡ got challenge_path
        ∷ reviewed single
        ∷ signed (signing_bytes toy.digest single)
        ∷ posted command_path body
        ∷ [])
    × (decode body ≡ ok s)
    × (s.transaction ≡ single)
    × (s.admin ≡ (software toy (replicate 32 9)).public)
    × (verify toy s server ≡ ok tt)
sign_and_submit-decode_example =
    sign_and_submit-decode toy toy-IsLawful toy_card toy_net toy_json (replicate 32 9) server first
      [] (replicate 32 3) start refl single-IsTransaction

abbrev chunks : List (List (List ℕ))
chunks = ((1 ∷ 2 ∷ []) ∷ (3 ∷ []) ∷ []) ∷ ((4 ∷ []) ∷ []) ∷ []

chunks-Delivers : Delivers toy_http tt chunks chunks (ok tt) []
unfolding next_chunk
chunks-Delivers = chunk _ refl (chunk _ refl (ended refl))

read_body-Delivers_example : read_body toy_http 3 tt [] chunks ≡ some (ok (1 ∷ 2 ∷ 3 ∷ 4 ∷ []), [])
read_body-Delivers_example = read_body-Delivers toy_http tt chunks-Delivers 3 [] (omega arith)

abbrev pub draws : Draws
draws = record { seed = replicate 32 9; salt = replicate 16 1; nonce = replicate 12 2 }

pub draws-IsDraws : IsDraws draws
draws-IsDraws = omega arith
