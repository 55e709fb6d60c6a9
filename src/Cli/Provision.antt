-- ===== src/Cli/Provision.antt =====
-- The key that `provision` announces and the key that `pubkey --yubikey` shows.
use sqnr.Base.{
  ℕ, ◌≡◌, sym, ap, ◌∙◌, true, Option, List, [], ◌∷◌, ◌++◌, append_assoc, ok, ok-injective,
}
use sqnr.Text.Utf8.{Text}
use sqnr.Core.Key.{PubKey, Encodings, display_key}
use sqnr.Core.Signed.{Crypto}
use sqnr.Effect.{Act, pure, ◌>>=◌, >>=-eq-ok}
use sqnr.Fs.{Fs}
use sqnr.Card.{Device, authentication}
use sqnr.Card.Methods
use sqnr.Card.Keys.{KeepsKey, provision-Has, pubkey-Has}
use sqnr.Config.{Config}
use sqnr.Identity.{Vault}
use sqnr.Cli
use sqnr.Cli.{provision_notice}

module _ (C : Crypto) (E : Encodings) (V : Vault) (F : Fs) (D : Device) (T : Cli.Terminal)
    (K : KeepsKey D) where
  abbrev State : Type 0
  State = Cli.World C E V F D T

  -- A command that prints these lines.
  print-inv :
      (line : Text) (u : Unit {0}) (w v : State)
      → Cli.print C E V F D T line w ≡ (ok u, v)
      → (v.printed ≡ w.printed ++ (line ∷ [])) × (v.card ≡ w.card)
  unfolding Cli.print
  print-inv line u w v e = (sym (ap (λ x. x.1.printed) e), sym (ap (λ x. x.1.card) e))

  ask-inv :
      (label answer : Text) (w v : State)
      → Cli.ask C E V F D T label w ≡ (ok answer, v)
      → v.printed ≡ w.printed
  unfolding Cli.ask
  ask-inv label answer w v e = sym (ap (λ x. x.1.printed) e)

  spawned-inv :
      {A : Type 0} (m : Act (Option D.Connection × D.World) A) (a : A) (w v : State)
      → Cli.spawned C E V F D T m w ≡ (ok a, v)
      → (c : Option D.Connection) × (m (Methods.spawn D w.card) ≡ (ok a, (c, v.card)))
        × (v.printed ≡ w.printed)
  unfolding Cli.spawned
  spawned-inv m a w v e =
      let made = m (Methods.spawn D w.card) in
      (made.1.0, (λ i. ((e i).0, (made.1.0, (e i).1.card))), sym (ap (λ x. x.1.printed) e))

  run_provision-inv :
      (w w' : State)
      → Cli.run_provision C E V F D T true w ≡ (ok tt, w')
      → (k : List ℕ) × K.shows.Has authentication k w'.card
        × (w'.printed ≡ w.printed ++ (provision_notice ∷ display_key E (record { raw = k }) ∷ []))
  unfolding Cli.run_provision Cli.provision_card
  run_provision-inv w w' e =
      let (u1, w1, p1, r1) = >>=-eq-ok (Cli.print C E V F D T provision_notice) _ {w = w} e in
      let (pin, w2, p2, r2) = >>=-eq-ok (Cli.ask C E V F D T _) _ {w = w1} r1 in
      let (k, w3, p3, r3) =
        >>=-eq-ok (Cli.spawned C E V F D T (Methods.provision D pin))
          (λ k. Cli.print C E V F D T (display_key E (record { raw = k }))) {w = w2} r2 in
      let (first, same1) = print-inv provision_notice u1 w w1 p1 in
      let quiet = ask-inv _ pin w1 w2 p2 in
      let (c, made, quiet') = spawned-inv (Methods.provision D pin) k w2 w3 p3 in
      let (last, same2) = print-inv (display_key E (record { raw = k })) tt w3 w' r3 in
      (
        k,
        rw same2 (provision-Has D K pin k (Methods.spawn D w2.card) (c, w3.card) made),
        last
            ∙ ap (λ x. x ++ (display_key E (record { raw = k }) ∷ [])) (quiet' ∙ quiet ∙ first)
            ∙ append_assoc w.printed (provision_notice ∷ []) _,
      )

  -- Where `provision --yubikey` succeeds, it has said what it will do and then printed the card's new
  -- key; and where `pubkey --yubikey` succeeds after it, it prints that same key.
  pub run_pubkey-run_provision :
      (identity : Option F.PathBuf) (cfg : Config F) (w w' w'' : State)
      → Cli.run_provision C E V F D T true w ≡ (ok tt, w')
      → Cli.run_pubkey C E V F D T true identity cfg w' ≡ (ok tt, w'')
      → (k : List ℕ) × (w'.printed
          ≡ w.printed ++ (provision_notice ∷ display_key E (record { raw = k }) ∷ []))
        × (w''.printed ≡ w'.printed ++ (display_key E (record { raw = k }) ∷ []))
  unfolding Cli.run_pubkey Cli.printed_key
  run_pubkey-run_provision identity cfg w w' w'' e e' =
      let (k, has, printed) = run_provision-inv w w' e in
      let asks : Act State PubKey =
        Cli.spawned C E V F D T (Methods.pubkey D) >>= λ key. pure (record { raw = key }) in
      let (key, v, q1, r1) =
        >>=-eq-ok asks (λ key. Cli.print C E V F D T (display_key E key)) {w = w'} e' in
      let (k', v', q2, r2) =
        >>=-eq-ok (Cli.spawned C E V F D T (Methods.pubkey D)) (λ key. pure (record { raw = key }))
          {w = w'} q1 in
      let (c, shown, quiet) = spawned-inv (Methods.pubkey D) k' w' v' q2 in
      let same : k' ≡ k =
        pubkey-Has D K.shows k k' (Methods.spawn D w'.card) (c, v'.card) has shown in
      let (last, same2) = print-inv (display_key E key) tt v w'' r1 in
      let renamed : record { raw = k' } ≡ key = ok-injective (ap (λ x. x.0) r2) in
      (
        k,
        printed,
        last
            ∙ ap (λ (x : State). x.printed ++ (display_key E key ∷ [])) (sym (ap (λ x. x.1) r2))
            ∙ ap (λ x. x ++ (display_key E key ∷ [])) quiet
            ∙ ap (λ (x : PubKey). w'.printed ++ (display_key E x ∷ [])) (sym renamed)
            ∙ ap (λ x. w'.printed ++ (display_key E (record { raw = x }) ∷ [])) same,
      )
