-- ===== src/Cli.antt =====
-- crates/sqnr/src/main.rs: the commands of the program `sqnr`.
pub mod Hands
pub mod Frame
pub mod Private
pub mod Made
pub mod Keys
pub mod Provision
use sqnr.Base.{
  ℕ, Bool, true, false, Option, none, some, List, [], ◌∷◌, ◌++◌, Result, ok, err, ltb, ◌=?◌, not,
  if◌then◌else◌,
}
use sqnr.Text.Utf8.{Text, codes, len}
use sqnr.Core.Key.{PubKey, Encodings, display_key}
use sqnr.Core.Signed.{Crypto}
use sqnr.Effect.{Act, pure, fail, ◌>>=◌, ◌>>◌}
use sqnr.Fs.{Fs}
use sqnr.Card.{Device}
use sqnr.Card.Methods
use sqnr.Config.{Config, load}
use sqnr.Identity.{Vault, Draws}
use sqnr.Identity.Files.{default_identity_path, generate, read_public}

-- The crate `rpassword`.
pub record Terminal : Type 1 where
  pub World : Type 0
  pub prompt_password : Text → Act World Text

pub data Cmd (P : Type 0) : Type 0 where
  keygen : Option P → Bool → Cmd P
  pubkey : Cmd P
  provision : Cmd P

pub record Cli (P : Type 0) : Type 0 where
  pub yubikey : Bool
  pub identity : Option P
  pub cmd : Cmd P

-- What `provision` says before it asks for the PIN.
abbrev pub provision_notice : Text
provision_notice =
    codes
      "This GENERATES a new Ed25519 key in the card's Authentication slot and\nOVERWRITES anything already there. The private half never leaves the\ncard and cannot be backed up, so an identity replaced here is gone.\n"

module _ (C : Crypto) (E : Encodings) (V : Vault) (F : Fs) (D : Device) (T : Terminal) where
  -- The files, the card, the terminal, the process's envelope version, and the lines printed so far,
  -- the latest last.
  pub record World : Type 0 where
    pub files : F.World
    pub card : D.World
    pub term : T.World
    pub setting : ℕ
    pub printed : List Text

  unfoldable pub on_files : {A : Type 0} → Act F.World A → Act World A
  on_files m w = let r = m w.files in (r.0, record w { files = r.1 })

  unfoldable pub ask : Text → Act World Text
  ask label w = let r = T.prompt_password label w.term in (r.0, record w { term = r.1 })

  unfoldable pub print : Text → Act World (Unit {0})
  print line w = (ok tt, record w { printed = w.printed ++ (line ∷ []) })

  -- `Card::spawn` and one request; the connection goes with the thread.
  unfoldable pub spawned : {A : Type 0} → Act (Option D.Connection × D.World) A → Act World A
  spawned m w = let r = m (Methods.spawn D w.card) in (r.0, record w { card = r.1.1 })

  unfoldable pub configured_path : Option F.PathBuf → Act World F.PathBuf
  configured_path (some p) = pure p
  configured_path none = on_files (default_identity_path F)

  unfoldable pub identity_path : Option F.PathBuf → Config F → Act World F.PathBuf
  identity_path (some p) cfg = pure p
  identity_path none cfg = configured_path cfg.identity

  -- `provision` behind its test of the flag.
  unfoldable pub provision_card : Act World (Unit {0})
  provision_card = do
    print provision_notice
    pin ← ask (codes "YubiKey admin PIN (PW3, 8+ digits, default 12345678): ")
    key ← spawned (Methods.provision D pin)
    print (display_key E (record { raw = key }))

  unfoldable pub run_provision : Bool → Act World (Unit {0})
  run_provision true = provision_card
  run_provision false = fail (
      codes
        "provision writes a key to a YubiKey; pass --yubikey to say so. For a software identity you want `sqnr keygen`.")

  unfoldable pub printed_key : Act World PubKey → Act World (Unit {0})
  printed_key m = do public ← m; print (display_key E public)

  unfoldable pub run_pubkey : Bool → Option F.PathBuf → Config F → Act World (Unit {0})
  run_pubkey true identity cfg =
      printed_key (spawned (Methods.pubkey D) >>= λ key. pure (record { raw = key }))
  run_pubkey false identity cfg =
      printed_key (identity_path identity cfg >>= λ path. on_files (read_public C E V F path))

  unfoldable pub keygen_path : Option F.PathBuf → Option F.PathBuf → Config F → Act World F.PathBuf
  keygen_path (some p) identity cfg = pure p
  keygen_path none identity cfg = identity_path identity cfg

  -- The second half of asking for a new passphrase.
  unfoldable pub confirmed : F.PathBuf → Draws → Text → Act World PubKey
  confirmed path d pass = do
    confirm ← ask (codes "Confirm passphrase: ")
    (if not (pass =? confirm)
        then fail (codes "passphrases do not match")
        else on_files (generate C E V F path (some pass) d))

  unfoldable pub new_identity : F.PathBuf → Draws → Bool → Act World PubKey
  new_identity path d true = on_files (generate C E V F path none d)
  new_identity path d false = do
    pass ← ask (codes "New passphrase: ")
    (if ltb (len pass) 8
        then fail (codes "passphrase must be at least 8 characters")
        else confirmed path d pass)

  unfoldable pub warning : Bool → Act World (Unit {0})
  warning false = pure tt
  warning true = print (codes "WARNING: this key is UNENCRYPTED (no passphrase); protect the file.")

  -- What `keygen` prints in the end.
  unfoldable pub report : F.PathBuf → Bool → PubKey → Act World (Unit {0})
  report path plaintext public = do
    print (codes "created " ++ F.display path)
    warning plaintext
    print (codes "public key: " ++ display_key E public)
    print (codes "\nAdd this key to the server's `admins` list to authorize it.")

  unfoldable pub run_keygen :
      Draws → Option F.PathBuf → Config F → Option F.PathBuf → Bool → Act World (Unit {0})
  run_keygen d identity cfg file plaintext = do
    path ← keygen_path file identity cfg
    public ← new_identity path d plaintext
    report path plaintext public

  unfoldable pub dispatch : Draws → Cli F.PathBuf → Config F → Act World (Unit {0})
  dispatch d cli cfg = elim (cli.cmd) [
    | keygen file plaintext ↦ run_keygen d cli.identity cfg file plaintext
    | pubkey ↦ run_pubkey cli.yubikey cli.identity cfg
    | provision ↦ run_provision cli.yubikey
  ]

  -- `run`, where `d` is what `keygen` draws.
  unfoldable pub run :
      (Text → Result (Config F) Text) → Draws → Cli F.PathBuf → Act World (Unit {0})
  run toml d cli w =
      let (cfg, setting, files) = load F toml w.setting w.files in
      dispatch d cli cfg (record w { files = files; setting = setting })

  ending : Result (Unit {0}) Text → World → ℕ × World
  ending (ok u) w = (0, w)
  ending (err e) w = (1, record w { printed = w.printed ++ ((codes "error: " ++ e) ∷ []) })

  -- `main`, after clap: the exit code, and an error on the terminal.
  unfoldable pub main : (Text → Result (Config F) Text) → Draws → Cli F.PathBuf → World → ℕ × World
  unfolding ending
  main toml d cli w = let r = run toml d cli w in ending r.0 r.1
