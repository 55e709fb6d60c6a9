-- ===== src/Identity/Guards.antt =====
-- What `load` checks of a file.
use sqnr.Base.{
  ◌≡◌, inl, inr, refl, sym, ap, ◌∙◌, Option, ok, ok-injective, map_err, map_err-eq-ok,
  and_then-eq-ok, Bool-cases, ◌=?◌, ◌↔◌, =?_refl, =?_iff, ◌++◌,
}
use sqnr.Text.Utf8.{Text, codes}
use sqnr.Core.Error.{display}
use sqnr.Core.Key.{PubKey, Encodings, from_base58}
use sqnr.Core.Signed.{Crypto}
use sqnr.Effect.{lift, ◌>>=◌, >>=-eq-ok}
use sqnr.Fs.{Fs}
use sqnr.Identity.{Vault, Contents, read_lines}
use sqnr.Identity.Files.{public_of, unlock, guarded, read_public, load}

module _ (C : Crypto) (E : Encodings) (V : Vault) where
  -- A key that passes the guard is the one that is asked about, and the public line's.
  guarded-ok :
      (c : Contents) (k k' : C.SigningKey)
      → guarded C E V c k ≡ ok k'
      → (k ≡ k') × (from_base58 E c.public ≡ ok (public_of C E V k'))
  unfolding guarded
  guarded-ok c k k' e =
      let (stored, parsed, tested) =
        and_then-eq-ok
          (map_err (from_base58 E c.public) (λ x. codes "bad public key line: " ++ display x)) _
          e in
      let read = map_err-eq-ok (from_base58 E c.public) _ stored parsed in
      elim (Bool-cases ((public_of C E V k).raw =? stored.raw)) [
        | inl agree ↦
            let same : k ≡ k' = ok-injective (rw agree at tested) in
            let raws : (public_of C E V k).raw ≡ stored.raw = (=?_iff _ _).0 agree in
            (same, rw (← same) (rw read (λ i. ok (record { raw = sym raws i }))))
        | inr differ ↦ cc (rw differ at tested)
      ]

  module _ (F : Fs) where
    pub load-inv :
        (path : F.PathBuf) (passphrase : Option Text) (k : C.SigningKey) (w w' : F.World)
        → load C E V F path passphrase w ≡ (ok k, w')
        → (c : Contents) × (read_lines F path w ≡ (ok c, w'))
          × (unlock C E V c passphrase ≡ ok k)
          × (from_base58 E c.public ≡ ok (public_of C E V k))
    unfolding load
    load-inv path passphrase k w w' e =
        let (c, v, first, rest) =
          >>=-eq-ok (read_lines F path)
            (λ c. lift (unlock C E V c passphrase) >>= λ x. lift (guarded C E V c x)) {w = w} e in
        let (x, v', opens, last) =
          >>=-eq-ok (lift (unlock C E V c passphrase)) (λ x. lift (guarded C E V c x)) {w = v}
            rest in
        let (same, public) = guarded-ok c x k (ap (λ y. y.0) last) in
        let there : v ≡ w' = cc in
        (c, first ∙ (λ i. (ok c, there i)), rw (← same) (ap (λ y. y.0) opens), public)

    load-read_public :
        (path : F.PathBuf) (passphrase : Option Text) (k : C.SigningKey) (w w' : F.World)
        → load C E V F path passphrase w ≡ (ok k, w')
        → read_public C E V F path w ≡ (ok (public_of C E V k), w')
    unfolding read_public
    load-read_public path passphrase k w w' e =
        let (c, read, opens, public) = load-inv path passphrase k w w' e in rw (read, public) refl

    guarded_same :
        (c : Contents) (k : C.SigningKey)
        → from_base58 E c.public ≡ ok (public_of C E V k)
        → guarded C E V c k ≡ ok k
    unfolding guarded
    guarded_same c k e = rw (e, =?_refl (public_of C E V k).raw) refl

    read_public-line :
        (path : F.PathBuf) (c : Contents) (key : PubKey) (w w' : F.World)
        → read_lines F path w ≡ (ok c, w')
        → read_public C E V F path w ≡ (ok key, w')
        → from_base58 E c.public ≡ ok key
    unfolding read_public
    read_public-line path c key w w' read e =
        map_err-eq-ok (from_base58 E c.public) _ key (ap (λ x. x.0) (rw read at e))

    pub load_same :
        (path : F.PathBuf) (passphrase : Option Text) (k : C.SigningKey) (c : Contents)
        (w w' : F.World)
        → read_lines F path w ≡ (ok c, w')
        → unlock C E V c passphrase ≡ ok k
        → from_base58 E c.public ≡ ok (public_of C E V k)
        → load C E V F path passphrase w ≡ (ok k, w')
    unfolding load
    load_same path passphrase k c w w' read opens public =
        rw (read, opens, guarded_same c k public) refl

    -- `load` gives a key, by any passphrase and from any file system, exactly where the file's
    -- contents open to that key and `read_public` reads that key's public half from the same file,
    -- and all leave the same file system.
    load_iff :
        (path : F.PathBuf) (passphrase : Option Text) (k : C.SigningKey) (w w' : F.World)
        → (load C E V F path passphrase w ≡ (ok k, w')) ↔ (
            (read_public C E V F path w ≡ (ok (public_of C E V k), w'))
            × ((c : Contents) × (read_lines F path w ≡ (ok c, w'))
                × (unlock C E V c passphrase ≡ ok k)))
    load_iff path passphrase k w w' = (
      λ e.
          let (c, read, opens, public) = load-inv path passphrase k w w' e in
          (load-read_public path passphrase k w w' e, (c, read, opens)),
      λ (shown, (c, read, opens)).
          load_same path passphrase k c w w' read opens (read_public-line path c _ w w' read shown),
    )
