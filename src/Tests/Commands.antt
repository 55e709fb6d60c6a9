-- ===== src/Tests/Commands.antt =====
-- Commands of the program at concrete inputs.
use sqnr.Base.{ℕ, ◌≡◌, refl, false, none, some, [], ◌∷◌, ◌++◌, ◌=?◌, Result, ok, err}
use sqnr.Text.Utf8.{Text, codes, len, as_bytes}
use sqnr.Config.{Config}
use sqnr.Core.Key.{PubKey, display_key}
use sqnr.Identity
use sqnr.Identity.{write_file}
use sqnr.Identity.Files.{generate, create_new, new_contents, public_of}
use sqnr.Cli
use sqnr.Cli.Made.{announced}
use sqnr.Cli.Keys.{run_pubkey-run_keygen}
use sqnr.Cli.Hands.{run-card, run_keygen-exists}
use sqnr.Tests.Toy.{toy, toy-IsLawful, toy_encodings, toy_encodings-IsLawful, fit}
use sqnr.Tests.Machines.{toy_card, toy_vault, toy_vault-IsLawful}
use sqnr.Tests.Runs.{draws, draws-IsDraws}
use sqnr.Tests.Files.{one_file, one_file-IsLawful, holds}

-- The operator always types the same passphrase.
abbrev typist : Cli.Terminal
typist = record { World = ℕ; prompt_password = λ label w. (ok (codes "correct horse"), w) }

abbrev taken : Cli.World toy toy_encodings toy_vault one_file toy_card typist
taken = record { files = some (1 ∷ []); card = 5; term = 0; setting = 0; printed = [] }

abbrev provisioning : Cli.Cli Text
provisioning = record { yubikey = false; identity = none; cmd = Cli.provision }

abbrev no_toml : Text → Result (Config one_file) Text
no_toml s = err (codes "not TOML")

run-card_example :
    (Cli.run toy toy_encodings toy_vault one_file toy_card typist no_toml draws provisioning
      taken).1.card
    ≡ 5
run-card_example =
    run-card toy toy_encodings toy_vault one_file toy_card typist no_toml draws provisioning taken
      refl

abbrev config : Config one_file
config = record { server = none; server_key = none; identity = none; envelope_version = none }

run_keygen-exists_example :
    ((e : Text) × ((Cli.run_keygen toy toy_encodings toy_vault one_file toy_card typist draws none
          config
          (some (codes "id"))
          false
          taken).0
        ≡ err e))
    × ((Cli.run_keygen toy toy_encodings toy_vault one_file toy_card typist draws none config
          (some (codes "id"))
          false
          taken).1.files
        ≡ some (1 ∷ []))
run_keygen-exists_example =
    run_keygen-exists toy toy_encodings toy_vault one_file toy_card typist draws none config
      (codes "id") false taken (unfold holds in refl)

abbrev fresh : Cli.World toy toy_encodings toy_vault one_file toy_card typist
fresh = record { files = none; card = 5; term = 0; setting = 0; printed = [] }

abbrev made : Cli.World toy toy_encodings toy_vault one_file toy_card typist
made =
    (Cli.run_keygen toy toy_encodings toy_vault one_file toy_card typist draws none config
      (some (codes "id")) false fresh).1

run_pubkey-run_keygen_example :
    (key : PubKey) × (made.printed
      ≡ announced toy toy_encodings toy_vault one_file toy_card typist (codes "id") false key)
    × ((Cli.run_pubkey toy toy_encodings toy_vault one_file toy_card typist false
          (some (codes "id"))
          config
          made).0
        ≡ ok tt)
    × ((Cli.run_pubkey toy toy_encodings toy_vault one_file toy_card typist false
          (some (codes "id"))
          config
          made).1.printed
        ≡ made.printed ++ (display_key toy_encodings key ∷ []))
run_pubkey-run_keygen_example =
    run_pubkey-run_keygen toy toy_encodings toy_vault one_file toy_card typist toy-IsLawful
      (λ seed h. refl) toy_encodings-IsLawful toy_vault-IsLawful one_file-IsLawful draws none config
      config (codes "id") false fresh made draws-IsDraws
      (unfold Cli.run_keygen Cli.keygen_path Cli.new_identity Cli.ask len as_bytes Cli.confirmed
          ◌=?◌ Cli.on_files generate holds create_new new_contents write_file public_of fit
          Identity.encrypt_seed Identity.argon2 Identity.cipher_of Cli.report Cli.print
          Cli.warning in
        refl)
