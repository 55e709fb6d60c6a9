-- ===== src/Tests/Announced.antt =====
-- A new identity that signs for a server, on concrete data.
use sqnr.Base.{◌≡◌, refl, none, some, List, ℕ, [], ◌∷◌, ok, replicate}
use sqnr.Text.Utf8.{codes}
use sqnr.Core.Signed.{SignedTransaction, decode, verify}
use sqnr.Core.Tx.{signing_bytes}
use sqnr.Signer.{software}
use sqnr.Identity
use sqnr.Identity.{write_file}
use sqnr.Identity.Files.{generate, create_new, new_contents, public_of, load}
use sqnr.Flow.{got, reviewed, signed, posted, challenge_path, command_path, sign_and_submit}
use sqnr.Flow.Announced.{sign_and_submit-load}
use sqnr.Tests.Toy.{toy, toy-IsLawful, toy_encodings, toy_encodings-IsLawful, fit}
use sqnr.Tests.Machines.{toy_card, toy_net, toy_json, toy_vault, toy_vault-IsLawful}
use sqnr.Tests.Wire.{server}
use sqnr.Tests.Runs.{first, single, single-IsTransaction, start, draws, draws-IsDraws}
use sqnr.Tests.Files.{one_file, one_file-IsLawful, written, holds}

sign_and_submit-load_example :
    (k : List ℕ) × ((load toy toy_encodings toy_vault one_file
        (codes "id")
        (some (codes "correct horse"))
        written).0
      ≡ ok k)
    × (body : List ℕ) × (s : SignedTransaction) × ((sign_and_submit toy toy_card toy_net toy_json
          (software toy k)
          server
          (first ∷ [])
          start).1.trace
        ≡ got challenge_path
          ∷ reviewed single
          ∷ signed (signing_bytes toy.digest single)
          ∷ posted command_path body
          ∷ [])
    × (decode body ≡ ok s)
    × (s.transaction ≡ single)
    × (s.admin ≡ record { raw = replicate 32 9 })
    × (verify toy s server ≡ ok tt)
sign_and_submit-load_example =
    sign_and_submit-load toy toy-IsLawful (λ seed h. refl) toy_encodings toy_encodings-IsLawful
      toy_vault toy_vault-IsLawful one_file one_file-IsLawful toy_card toy_net toy_json (codes "id")
      (some (codes "correct horse")) draws (record { raw = replicate 32 9 }) none written server
      first [] (replicate 32 3) start draws-IsDraws
      (unfold generate create_new new_contents write_file public_of holds fit Identity.encrypt_seed
          Identity.argon2 Identity.cipher_of in
        refl)
      refl single-IsTransaction
