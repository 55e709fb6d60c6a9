-- ===== src/Cli/Private.antt =====
-- What `keygen` does to the files.
use sqnr.Base.{◌≡◌, ◌∙◌, refl, sym, ap, Bool, Option, some, ok}
use sqnr.Text.Utf8.{Text, as_bytes}
use sqnr.Core.Key.{Encodings}
use sqnr.Core.Signed.{Crypto}
use sqnr.Effect.Leaves.{Leaves}
use sqnr.Fs.{Fs}
use sqnr.Card.{Device}
use sqnr.Config.{Config}
use sqnr.Identity.{Vault, Draws, file_text}
use sqnr.Identity.Files.{generate}
use sqnr.Identity.Written.{Written, new_contents-Written}
use sqnr.Identity.Private.{File, HasFiles, generate-Leaves, generate-IsPrivate}
use sqnr.Cli
use sqnr.Cli.Frame.{keygen-Leaves}
use sqnr.Cli.Made.{IsFor, run_keygen-inv}

module _ (C : Crypto) (E : Encodings) (V : Vault) (F : Fs) (D : Device) (T : Cli.Terminal)
    (K : HasFiles F) where
  abbrev State : Type 0
  State = Cli.World C E V F D T

  -- The file at `q`.
  abbrev file_at : F.PathBuf → State → Option File
  file_at q w = K.file q w.files

  makes-Leaves :
      (path q : F.PathBuf) (pass : Option Text) (d : Draws)
      → K.Apart path q
      → Leaves (file_at q) (Cli.on_files C E V F D T (generate C E V F path pass d))
  unfolding Cli.on_files
  makes-Leaves path q pass d h = record {
    at = λ w. (generate-Leaves F K C E V path q pass d h).at w.files;
  }

  -- Whatever comes of it, `keygen`, told of a file, leaves every file apart from it as it was.
  run_keygen-file_at :
      (d : Draws) (p : Option F.PathBuf) (cfg : Config F) (path q : F.PathBuf) (plaintext : Bool)
      → K.Apart path q
      → Leaves (file_at q) (Cli.run_keygen C E V F D T d p cfg (some path) plaintext)
  unfolding Cli.run_keygen Cli.keygen_path Cli.print Cli.ask
  run_keygen-file_at d p cfg path q plaintext h = record {
    at =
        (keygen-Leaves C E V F D T (file_at q) (λ line. record { at = λ w. refl })
          (λ label. record { at = λ w. refl }) path (λ pass x. makes-Leaves path q pass x h) d
          plaintext).at;
  }

  -- Where `keygen`, told of a file, succeeds: the file has the mode 0600, and any file apart from it is as
  -- it was. With `--plaintext` it holds the header for a bare key and the new seed; else the header for
  -- an encrypted key and the ciphertext of that seed, under the cipher that a passphrase of 8 bytes or
  -- more gives with the salt at 64 MiB, 3 rounds and 4 lanes, behind those costs, the salt and the
  -- nonce; and in either case the new public key, each on a line of its own.
  pub run_keygen-IsPrivate :
      (d : Draws) (p : Option F.PathBuf) (cfg : Config F) (path q : F.PathBuf) (plaintext : Bool)
      (w w' : State)
      → K.Apart path q
      → Cli.run_keygen C E V F D T d p cfg (some path) plaintext w ≡ (ok tt, w')
      → (pass : Option Text) × (text : Text) × IsFor plaintext pass
        × Written C E V d pass text
        × (K.file path w'.files ≡ some (record { bytes = as_bytes text; mode = 0o600 }))
        × (K.file q w'.files ≡ K.file q w.files)
  run_keygen-IsPrivate d p cfg path q plaintext w w' h e =
      let (key, (pass, for, wrote, silent), printed) =
        run_keygen-inv C E V F D T d p cfg path plaintext w w' e in
      let (c, made, private) =
        generate-IsPrivate F K C E V path pass d key w.files w'.files wrote in
      (
        pass,
        file_text c,
        for,
        new_contents-Written C E V d pass c made,
        private,
        ap (λ x. file_at q x.1) (sym e) ∙ (run_keygen-file_at d p cfg path q plaintext h).at w,
      )
