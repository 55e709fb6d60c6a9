-- ===== src/Cli/Frame.antt =====
-- What `keygen` leaves as it is, once its path is known: whatever its printing, its prompts and
-- `generate` leave.
use sqnr.Base.{Bool, true, false, Option}
use sqnr.Text.Utf8.{Text}
use sqnr.Core.Key.{PubKey, Encodings}
use sqnr.Core.Signed.{Crypto}
use sqnr.Effect.{◌>>=◌}
use sqnr.Effect.Leaves.{Leaves, leaves_rules, >>=-Leaves}
use sqnr.Fs.{Fs}
use sqnr.Card.{Device}
use sqnr.Identity.{Vault, Draws}
use sqnr.Identity.Files.{generate}
use sqnr.Cli

module _ (C : Crypto) (E : Encodings) (V : Vault) (F : Fs) (D : Device) (T : Cli.Terminal)
    {S : Type 0} (view : Cli.World C E V F D T → S)
    (prints : (line : Text) → Leaves view (Cli.print C E V F D T line))
    (asks : (label : Text) → Leaves view (Cli.ask C E V F D T label)) (path : F.PathBuf)
    (makes : (pass : Option Text) (d : Draws)
      → Leaves view (Cli.on_files C E V F D T (generate C E V F path pass d))) where
  confirmed-Leaves : (d : Draws) (pass : Text) → Leaves view (Cli.confirmed C E V F D T path d pass)
  unfolding Cli.confirmed
  confirmed-Leaves d pass = search (leaves_rules, asks, makes)

  new_identity-Leaves :
      (d : Draws) (plaintext : Bool) → Leaves view (Cli.new_identity C E V F D T path d plaintext)
  unfolding Cli.new_identity
  new_identity-Leaves d true = makes _ d
  new_identity-Leaves d false = search (leaves_rules, asks, confirmed-Leaves)

  warning-Leaves : (plaintext : Bool) → Leaves view (Cli.warning C E V F D T plaintext)
  unfolding Cli.warning
  warning-Leaves true = search (leaves_rules, prints)
  warning-Leaves false = search leaves_rules

  report-Leaves :
      (plaintext : Bool) (key : PubKey) → Leaves view (Cli.report C E V F D T path plaintext key)
  unfolding Cli.report
  report-Leaves plaintext key = search (leaves_rules, prints, warning-Leaves) depth 9

  pub keygen-Leaves :
      (d : Draws) (plaintext : Bool)
      → Leaves view (
          Cli.new_identity C E V F D T path d plaintext >>= λ public.
          Cli.report C E V F D T path plaintext public)
  keygen-Leaves d plaintext =
      >>=-Leaves _ _ (new_identity-Leaves d plaintext) (report-Leaves plaintext)
