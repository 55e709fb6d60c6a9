-- ===== src/Cli/Keys.antt =====
-- The key that `keygen` announces and the key that `pubkey` shows.
use sqnr.Base.{Bool, false, ◌≡◌, refl, Option, some, [], ◌∷◌, ◌++◌, ok}
use sqnr.Core.Key.{PubKey, Encodings, display_key}
use sqnr.Core.Key.Laws
use sqnr.Core.Signed.{Crypto}
use sqnr.Core.Signed.Verify
use sqnr.Fs.{Fs}
use sqnr.Card.{Device}
use sqnr.Config.{Config}
use sqnr.Identity.{Vault, Draws}
use sqnr.Identity.Files.{read_public}
use sqnr.Identity.Keeps.{KeepsSeeds}
use sqnr.Identity.RoundTrip
use sqnr.Identity.RoundTrip.{load-generate}
use sqnr.Identity.Seal
use sqnr.Identity.Seal.{IsDraws}
use sqnr.Cli
use sqnr.Cli.Made.{announced, run_keygen-inv}

module _ (C : Crypto) (E : Encodings) (V : Vault) (F : Fs) (D : Device) (T : Cli.Terminal) where
  abbrev State : Type 0
  State = Cli.World C E V F D T

  shows :
      (p : Option F.PathBuf) (cfg : Config F) (path : F.PathBuf) (key : PubKey) (w : State)
      → (read_public C E V F path w.files).0 ≡ ok key
      → ((Cli.run_pubkey C E V F D T false (some path) cfg w).0 ≡ ok tt)
        × ((Cli.run_pubkey C E V F D T false (some path) cfg w).1.printed
            ≡ w.printed ++ (display_key E key ∷ []))
  unfolding Cli.run_pubkey Cli.printed_key Cli.identity_path Cli.on_files Cli.print
  shows p cfg path key w e = rw e (refl, refl)

  module _ (L : Verify.IsLawful C) (keeps : KeepsSeeds C) (LE : Laws.IsLawful E)
      (LV : Seal.IsLawful V) (LF : RoundTrip.IsLawful F) where
    -- Where `keygen` makes an identity in a file, it prints the path, a warning just if the key is
    -- unencrypted, and a public key; and from there `pubkey`, told of that file, succeeds and prints
    -- that public key, without a passphrase.
    pub run_pubkey-run_keygen :
        (d : Draws) (p : Option F.PathBuf) (cfg cfg' : Config F) (path : F.PathBuf)
        (plaintext : Bool) (w w' : State)
        → IsDraws d
        → Cli.run_keygen C E V F D T d p cfg (some path) plaintext w ≡ (ok tt, w')
        → (key : PubKey) × (w'.printed ≡ w.printed ++ announced C E V F D T path plaintext key)
          × ((Cli.run_pubkey C E V F D T false (some path) cfg' w').0 ≡ ok tt)
          × ((Cli.run_pubkey C E V F D T false (some path) cfg' w').1.printed
              ≡ w'.printed ++ (display_key E key ∷ []))
    run_pubkey-run_keygen d p cfg cfg' path plaintext w w' hd e =
        let (key, (pass, for, wrote, silent), printed) =
          run_keygen-inv C E V F D T d p cfg path plaintext w w' e in
        let (loads, public, sealed) =
          load-generate C L keeps E LE V LV F LF path pass d key w.files w'.files hd wrote in
        let (fine, line) = shows p cfg' path key w' public in (key, printed, fine, line)
