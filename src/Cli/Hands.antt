-- ===== src/Cli/Hands.antt =====
-- What the program leaves alone: the card without `--yubikey`, and a file that is there already.
use sqnr.Base.{
  Bool, true, false, not, ltb, ◌≡◌, refl, ap, ◌∙◌, Option, none, some, Result, err, Bool-cases,
  Result-cases, inl, inr, ◌=?◌,
}
use sqnr.Text.Utf8.{Text, codes, len}
use sqnr.Core.Key.{Encodings}
use sqnr.Core.Signed.{Crypto}
use sqnr.Effect.{Act}
use sqnr.Effect.Leaves.{Leaves, leaves_rules, >>=-Leaves}
use sqnr.Fs.{Fs}
use sqnr.Card.{Device}
use sqnr.Config.{Config, load}
use sqnr.Identity.{Vault, Draws}
use sqnr.Identity.Files.{generate}
use sqnr.Cli
use sqnr.Cli.Frame.{keygen-Leaves}

module _ (C : Crypto) (E : Encodings) (V : Vault) (F : Fs) (D : Device) (T : Cli.Terminal) where
  abbrev State : Type 0
  State = Cli.World C E V F D T

  -- The world of the card.
  abbrev card_of : State → D.World
  card_of w = w.card

  on_files-Leaves : {A : Type 0} (m : Act F.World A) → Leaves card_of (Cli.on_files C E V F D T m)
  unfolding Cli.on_files
  on_files-Leaves m = record { at = λ w. refl }

  print-Leaves : (line : Text) → Leaves card_of (Cli.print C E V F D T line)
  unfolding Cli.print
  print-Leaves line = record { at = λ w. refl }

  ask-Leaves : (label : Text) → Leaves card_of (Cli.ask C E V F D T label)
  unfolding Cli.ask
  ask-Leaves label = record { at = λ w. refl }

  ruleset cli_rules = (leaves_rules, on_files-Leaves, print-Leaves, ask-Leaves)

  configured_path-Leaves :
      (p : Option F.PathBuf) → Leaves card_of (Cli.configured_path C E V F D T p)
  unfolding Cli.configured_path
  configured_path-Leaves (some p) = search cli_rules
  configured_path-Leaves none = search cli_rules

  identity_path-Leaves :
      (p : Option F.PathBuf) (cfg : Config F) → Leaves card_of (Cli.identity_path C E V F D T p cfg)
  unfolding Cli.identity_path
  identity_path-Leaves (some p) cfg = search cli_rules
  identity_path-Leaves none cfg = search (cli_rules, configured_path-Leaves)

  keygen_path-Leaves :
      (file p : Option F.PathBuf) (cfg : Config F)
      → Leaves card_of (Cli.keygen_path C E V F D T file p cfg)
  unfolding Cli.keygen_path
  keygen_path-Leaves (some f) p cfg = search cli_rules
  keygen_path-Leaves none p cfg = search (cli_rules, identity_path-Leaves)

  run_keygen-Leaves :
      (d : Draws) (p : Option F.PathBuf) (cfg : Config F) (file : Option F.PathBuf)
      (plaintext : Bool)
      → Leaves card_of (Cli.run_keygen C E V F D T d p cfg file plaintext)
  unfolding Cli.run_keygen
  run_keygen-Leaves d p cfg file plaintext = >>=-Leaves _ _ (keygen_path-Leaves file p cfg) λ path.
      keygen-Leaves C E V F D T card_of print-Leaves ask-Leaves path
        (λ pass x. on_files-Leaves (generate C E V F path pass x)) d plaintext

  run_pubkey-Leaves :
      (p : Option F.PathBuf) (cfg : Config F)
      → Leaves card_of (Cli.run_pubkey C E V F D T false p cfg)
  unfolding Cli.run_pubkey Cli.printed_key
  run_pubkey-Leaves p cfg = search (cli_rules, identity_path-Leaves)

  dispatch-Leaves :
      (d : Draws) (p : Option F.PathBuf) (cmd : Cli.Cmd F.PathBuf) (cfg : Config F)
      → Leaves card_of
          (Cli.dispatch C E V F D T d (record { yubikey = false; identity = p; cmd = cmd }) cfg)
  unfolding Cli.dispatch Cli.run_provision
  dispatch-Leaves d p (Cli.keygen file plaintext) cfg = run_keygen-Leaves d p cfg file plaintext
  dispatch-Leaves d p Cli.pubkey cfg = run_pubkey-Leaves p cfg
  dispatch-Leaves d p Cli.provision cfg = search cli_rules

  -- Without `--yubikey` no command changes the world of the card, whatever it is and whatever comes
  -- of it.
  pub run-card :
      (toml : Text → Result (Config F) Text) (d : Draws) (cli : Cli.Cli F.PathBuf) (w : State)
      → cli.yubikey ≡ false
      → (Cli.run C E V F D T toml d cli w).1.card ≡ w.card
  unfolding Cli.run
  run-card toml d cli w h =
      let (cfg, setting, files) = load F toml w.setting w.files in
      let v : State = record w { files = files; setting = setting } in
      ap (λ b. (Cli.dispatch C E V F D T d (record cli { yubikey = b }) cfg v).1.card) h
      ∙ (dispatch-Leaves d cli.identity cli.cmd cfg).at v

  -- A command that fails and leaves the files as they were.
  abbrev Refused : {A : Type 0} → Act State A → State → Type 0
  Refused m w = ((e : Text) × ((m w).0 ≡ err e)) × ((m w).1.files ≡ w.files)

  generate-exists :
      (path : F.PathBuf) (pass : Option Text) (d : Draws) (w : State)
      → F.exists path w.files ≡ true
      → Refused (Cli.on_files C E V F D T (generate C E V F path pass d)) w
  unfolding Cli.on_files generate
  generate-exists path pass d w h = rw h ((_, refl), refl)

  confirmed-exists :
      (path : F.PathBuf) (d : Draws) (pass : Text) (w : State)
      → F.exists path w.files ≡ true
      → Refused (Cli.confirmed C E V F D T path d pass) w
  unfolding Cli.confirmed Cli.ask
  confirmed-exists path d pass w h =
      elim (Result-cases (T.prompt_password (codes "Confirm passphrase: ") w.term).0) [
        | inr (x, missing) ↦ rw missing ((x, refl), refl)
        | inl (again, given) ↦ elim (Bool-cases (not (pass =? again))) [
          | inl differ ↦ rw (given, differ) ((_, refl), refl)
          | inr same ↦ rw (given, same) (generate-exists path (some pass) d _ h)
        ]
      ]

  new_identity-exists :
      (path : F.PathBuf) (d : Draws) (plaintext : Bool) (w : State)
      → F.exists path w.files ≡ true
      → Refused (Cli.new_identity C E V F D T path d plaintext) w
  unfolding Cli.new_identity Cli.ask
  new_identity-exists path d true w h = generate-exists path none d w h
  new_identity-exists path d false w h =
      elim (Result-cases (T.prompt_password (codes "New passphrase: ") w.term).0) [
        | inr (x, missing) ↦ rw missing ((x, refl), refl)
        | inl (pass, given) ↦ elim (Bool-cases (ltb (len pass) 8)) [
          | inl short ↦ rw (given, short) ((_, refl), refl)
          | inr long ↦ rw (given, long) (confirmed-exists path d pass _ h)
        ]
      ]

  -- Where the file that `keygen` is told to write is there already, it fails, whatever the operator
  -- types, and every file is as it was.
  pub run_keygen-exists :
      (d : Draws) (p : Option F.PathBuf) (cfg : Config F) (path : F.PathBuf) (plaintext : Bool)
      (w : State)
      → F.exists path w.files ≡ true
      → ((e : Text) × ((Cli.run_keygen C E V F D T d p cfg (some path) plaintext w).0 ≡ err e))
        × ((Cli.run_keygen C E V F D T d p cfg (some path) plaintext w).1.files ≡ w.files)
  unfolding Cli.run_keygen Cli.keygen_path
  run_keygen-exists d p cfg path plaintext w h =
      let ((e, fails), kept) = new_identity-exists path d plaintext w h in
      rw (fails) ((e, refl), kept)
