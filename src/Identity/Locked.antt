-- ===== src/Identity/Locked.antt =====
-- Opening a sealed identity without its passphrase.
use sqnr.Base.{
  ℕ, ◌≡◌, refl, sym, ◌∙◌, ap, Option, none, some, List, ok, err, Result, and_then, and_then-eq-ok,
  ok-injective, ◌=?◌,
}
use sqnr.Text.Utf8.{Text, codes}
use sqnr.Core.Key.{PubKey, Encodings}
use sqnr.Core.Key.Laws
use sqnr.Core.Signed.{Crypto}
use sqnr.Core.Signed.Verify
use sqnr.Fs.{Fs}
use sqnr.Identity.{
  Vault, Draws, Contents, encrypt_seed, decrypt_seed, argon2, cipher_of, argon_m_cost, argon_t_cost,
  argon_p_cost, read_lines,
}
use sqnr.Identity.Files.{generate, load, unlock, unlock_sealed, new_contents}
use sqnr.Identity.Keeps.{KeepsSeeds}
use sqnr.Identity.RoundTrip
use sqnr.Identity.RoundTrip.{generate-inv}
use sqnr.Identity.Seal
use sqnr.Identity.Seal.{IsDraws, decrypt_seed-blob, encrypt_seed-inv}

module _ (V : Vault) where
  -- The cipher that a passphrase gives with a salt, at today's costs.
  abbrev pub cipher_for : List ℕ → Text → Result V.Cipher Text
  cipher_for salt passphrase =
      and_then (argon2 V argon_m_cost argon_t_cost argon_p_cost passphrase salt) (cipher_of V)

  -- A cipher refuses what a passphrase seals with these draws: it finds no valid tag.
  abbrev pub Refuses : V.Cipher → Text → Draws → Type 0
  Refuses wrong passphrase d =
      (c : V.Cipher) (ct : List ℕ)
      → cipher_for d.salt passphrase ≡ ok c
      → V.encrypt c d.nonce d.seed ≡ ok ct
      → (e : Text) × (V.decrypt wrong d.nonce ct ≡ err e)

module _ (C : Crypto) (E : Encodings) (LE : Laws.IsLawful E) (V : Vault)
    (LV : Seal.IsLawful V) where
  decrypt_seed_wrong :
      (d : Draws) (passphrase wrong sealed : Text) (c : V.Cipher)
      → IsDraws d
      → encrypt_seed C E V d d.seed passphrase ≡ ok sealed
      → cipher_for V d.salt wrong ≡ ok c
      → Refuses V c passphrase d
      → decrypt_seed C E V sealed wrong ≡ err (codes "decryption failed (wrong passphrase?)")
  decrypt_seed_wrong d passphrase wrong sealed c hd e h differs =
      let (derived, cipher, ct, e1, e2, e3, same) =
        encrypt_seed-inv C E LE V LV d d.seed passphrase sealed e in
      let (derived', f1, f2) =
        and_then-eq-ok (argon2 V argon_m_cost argon_t_cost argon_p_cost wrong d.salt) (cipher_of V)
          h in
      let (x, refused) = differs cipher ct (rw e1 e2) e3 in
      ap (λ s. decrypt_seed C E V s wrong) (sym same)
      ∙ decrypt_seed-blob C E LE V LV d derived' ct wrong c hd
          (LV.encrypt_bytes cipher d.nonce d.seed ct hd.seed.bytes e3) f1 f2
      ∙ rw refused refl

  module _ (L : Verify.IsLawful C) (keeps : KeepsSeeds C) (F : Fs) (LF : RoundTrip.IsLawful F) where
    reads_locked :
        (path : F.PathBuf) (passphrase : Option Text) (c : Contents) (x : Text) (w : F.World)
        → (read_lines F path w).0 ≡ ok c
        → unlock C E V c passphrase ≡ err x
        → (load C E V F path passphrase w).0 ≡ err x
    unfolding load
    reads_locked path passphrase c x w e h = rw (e, h)

    -- A file that `generate` sealed under a passphrase does not load without one, and does not load
    -- under another passphrase, which gives a cipher with the file's salt that refuses this file's
    -- ciphertext; each time with the error that says so.
    pub load-generate_locked :
        (path : F.PathBuf) (passphrase wrong : Text) (d : Draws) (key : PubKey) (c : V.Cipher)
        (w w' : F.World)
        → IsDraws d
        → cipher_for V d.salt wrong ≡ ok c
        → Refuses V c passphrase d
        → generate C E V F path (some passphrase) d w ≡ (ok key, w')
        → ((load C E V F path none w').0
            ≡ err (codes "identity is encrypted; a passphrase is required"))
          × ((load C E V F path (some wrong) w').0
              ≡ err (codes "decryption failed (wrong passphrase?)"))
    unfolding new_contents unlock unlock_sealed ◌=?◌
    load-generate_locked path passphrase wrong d key c w w' hd h differs e =
        let (file, made, kept, read, same) =
          generate-inv C L keeps E LE V LV F LF path (some passphrase) d key w w' hd e in
        let (sealed, sealing, contents) =
          and_then-eq-ok (encrypt_seed C E V d (C.seed_of (C.from_seed d.seed)) passphrase) _
            made in
        let under = rw (keeps d.seed hd.seed) at sealing in
        (
          reads_locked path none file _ w' read (rw (← ok-injective contents) refl),
          reads_locked path (some wrong) file _ w' read (
              rw (← ok-injective contents)
                (decrypt_seed_wrong d passphrase wrong sealed c hd under h differs)),
        )
