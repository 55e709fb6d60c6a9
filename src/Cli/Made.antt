-- ===== src/Cli/Made.antt =====
-- What `keygen` did, where it made an identity.
use sqnr.Base.{
  ◌≤◌, ltb_not→le, Bool, true, false, not, ltb, ◌≡◌, refl, sym, ap, ◌∙◌, Option, none, some, List,
  [], ◌∷◌, ◌++◌, append_assoc, ok, Bool-cases, inl, inr, ◌=?◌, if◌then◌else◌,
}
use sqnr.Text.Utf8.{Text, codes, len}
use sqnr.Core.Key.{PubKey, Encodings, display_key}
use sqnr.Core.Signed.{Crypto}
use sqnr.Effect.{>>=-eq-ok}
use sqnr.Fs.{Fs}
use sqnr.Card.{Device}
use sqnr.Config.{Config}
use sqnr.Identity.{Vault, Draws}
use sqnr.Identity.Files.{generate}
use sqnr.Cli

-- What seals an identity: with `--plaintext` nothing, else a passphrase of 8 bytes or more.
abbrev pub IsFor : Bool → Option Text → Type 0
IsFor true none = Unit
IsFor false (some pass) = 8 ≤ len pass
IsFor _ _ = ⊥

module _ (C : Crypto) (E : Encodings) (V : Vault) (F : Fs) (D : Device) (T : Cli.Terminal) where
  abbrev State : Type 0
  State = Cli.World C E V F D T

  -- The files got a new identity, and nothing was printed yet.
  abbrev pub Made : F.PathBuf → Bool → Draws → PubKey → State → State → Type 0
  Made path plaintext d key w v =
      (pass : Option Text) × IsFor plaintext pass
      × (generate C E V F path pass d w.files ≡ (ok key, v.files))
      × (v.printed ≡ w.printed)

  generate-Made :
      (path : F.PathBuf) (plaintext : Bool) (pass : Option Text) (d : Draws) (key : PubKey)
      (w v : State)
      → IsFor plaintext pass
      → Cli.on_files C E V F D T (generate C E V F path pass d) w ≡ (ok key, v)
      → Made path plaintext d key w v
  unfolding Cli.on_files
  generate-Made path plaintext pass d key w v h e =
      (pass, h, λ i. ((e i).0, (e i).1.files), sym (ap (λ x. x.1.printed) e))

  ask-Made :
      (path : F.PathBuf) (plaintext : Bool) (label answer : Text) (d : Draws) (key : PubKey)
      (w u v : State)
      → Cli.ask C E V F D T label w ≡ (ok answer, u)
      → Made path plaintext d key u v
      → Made path plaintext d key w v
  unfolding Cli.ask
  ask-Made path plaintext label answer d key w u v e (pass, for, made, silent) =
      let files : w.files ≡ u.files = ap (λ x. x.1.files) e in
      let printed : w.printed ≡ u.printed = ap (λ x. x.1.printed) e in
      (pass, for, ap (generate C E V F path pass d) files ∙ made, silent ∙ sym printed)

  confirmed-Made :
      (path : F.PathBuf) (d : Draws) (typed : Text) (key : PubKey) (w v : State)
      → 8 ≤ len typed
      → Cli.confirmed C E V F D T path d typed w ≡ (ok key, v)
      → Made path false d key w v
  unfolding Cli.confirmed
  confirmed-Made path d typed key w v long e =
      let (again, u, asked, rest) =
        >>=-eq-ok (Cli.ask C E V F D T (codes "Confirm passphrase: ")) _ {w = w} e in
      elim (Bool-cases (not (typed =? again))) [
        | inl differ ↦ cc (rw differ at rest)
        | inr same ↦
            ask-Made path false _ again d key w u v asked
              (generate-Made path false (some typed) d key u v long (rw same at rest))
      ]

  new_identity-Made :
      (path : F.PathBuf) (d : Draws) (plaintext : Bool) (key : PubKey) (w v : State)
      → Cli.new_identity C E V F D T path d plaintext w ≡ (ok key, v)
      → Made path plaintext d key w v
  unfolding Cli.new_identity
  new_identity-Made path d true key w v e = generate-Made path true none d key w v tt e
  new_identity-Made path d false key w v e =
      let (typed, u, asked, rest) =
        >>=-eq-ok (Cli.ask C E V F D T (codes "New passphrase: ")) _ {w = w} e in
      elim (Bool-cases (ltb (len typed) 8)) [
        | inl short ↦ cc (rw short at rest)
        | inr long ↦
            ask-Made path false _ typed d key w u v asked (
              confirmed-Made path d typed key u v (ltb_not→le (len typed) 8 long) (rw long at rest))
      ]

  -- What `keygen` prints in the end.
  abbrev pub announced : F.PathBuf → Bool → PubKey → List Text
  announced path plaintext key =
      (codes "created " ++ F.display path)
      ∷ ((if plaintext
            then codes "WARNING: this key is UNENCRYPTED (no passphrase); protect the file." ∷ []
            else [])
          ++ ((codes "public key: " ++ display_key E key)
              ∷ codes "\nAdd this key to the server's `admins` list to authorize it."
              ∷ []))

  report-announced :
      (path : F.PathBuf) (plaintext : Bool) (key : PubKey) (w : State)
      → Cli.report C E V F D T path plaintext key w
        ≡ (ok tt, record w { printed = w.printed ++ announced path plaintext key })
  unfolding Cli.report Cli.print Cli.warning
  report-announced path true key w = simp append_assoc
  report-announced path false key w = simp append_assoc

  -- A `keygen` that succeeded.
  pub run_keygen-inv :
      (d : Draws) (p : Option F.PathBuf) (cfg : Config F) (path : F.PathBuf) (plaintext : Bool)
      (w w' : State)
      → Cli.run_keygen C E V F D T d p cfg (some path) plaintext w ≡ (ok tt, w')
      → (key : PubKey) × Made path plaintext d key w (record w' { printed = w.printed })
        × (w'.printed ≡ w.printed ++ announced path plaintext key)
  unfolding Cli.run_keygen Cli.keygen_path
  run_keygen-inv d p cfg path plaintext w w' e =
      let (key, v, made, rest) =
        >>=-eq-ok (Cli.new_identity C E V F D T path d plaintext)
          (λ key. Cli.report C E V F D T path plaintext key) {w = w} e in
      let (pass, for, wrote, silent) = new_identity-Made path d plaintext key w v made in
      let last = sym (report-announced path plaintext key v) ∙ rest in
      (
        key,
        (pass, for, wrote ∙ ap (λ x. (ok key, x.1.files)) last, refl),
        sym (ap (λ x. x.1.printed) last) ∙ ap (λ x. x ++ announced path plaintext key) silent,
      )
