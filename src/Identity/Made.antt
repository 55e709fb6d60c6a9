-- ===== src/Identity/Made.antt =====
-- What `generate` did, and `write_file` with it, where it made an identity.
use sqnr.Base.{◌≡◌, ◌++◌, sym, ap, inl, inr, Option, ok, ok-injective, Bool-cases}
use sqnr.Text.Utf8.{Text, codes, as_bytes}
use sqnr.Core.Key.{PubKey, Encodings}
use sqnr.Core.Signed.{Crypto}
use sqnr.Effect.{Act, ◌>>=◌, >>=-eq-ok, rename, rename-eq-ok}
use sqnr.Fs.{Fs}
use sqnr.Identity.{Vault, Draws, Contents, write_file, file_text}
use sqnr.Identity.Files.{generate, create_new, new_contents, public_of}

module _ (F : Fs) where
  -- What a file that was written went through.
  pub write_file-inv :
      (path : F.PathBuf) (c : Contents) (w w' : F.World)
      → write_file F path c w ≡ (ok tt, w')
      → (w1 : F.World) × (F.write path (as_bytes (file_text c)) w ≡ (ok tt, w1))
        × (F.set_permissions path 0o600 w1 ≡ (ok tt, w'))
  unfolding write_file
  write_file-inv path c w w' e =
      let wrote : Text → Text = λ x. codes "write " ++ (F.display path ++ (codes ": " ++ x)) in
      let moded : Text → Text = λ x. codes "chmod " ++ (F.display path ++ (codes ": " ++ x)) in
      let (u, v, first, second) =
        >>=-eq-ok (rename wrote (F.write path (as_bytes (file_text c))))
          (λ x. rename moded (F.set_permissions path 0o600)) {w = w} e in
      (
        v,
        rename-eq-ok wrote (F.write path (as_bytes (file_text c))) first,
        rename-eq-ok moded (F.set_permissions path 0o600) second,
      )

module _ (C : Crypto) (E : Encodings) (V : Vault) (F : Fs) where
  create_new-inv :
      (path : F.PathBuf) (passphrase : Option Text) (d : Draws) (key : PubKey) (w w' : F.World)
      → create_new C E V F path passphrase d w ≡ (ok key, w')
      → (c : Contents) × (new_contents C E V d (C.from_seed d.seed) passphrase ≡ ok c)
        × (write_file F path c w ≡ (ok tt, w'))
        × (public_of C E V (C.from_seed d.seed) ≡ key)
  unfolding create_new
  create_new-inv path passphrase d key w w' e =
      let made : C.SigningKey = C.from_seed d.seed in
      let finish : Act F.World PubKey = λ x. (ok (public_of C E V made), x) in
      let (c, v, first, second) =
        >>=-eq-ok (λ x. (new_contents C E V d made passphrase, x))
          (λ x. write_file F path x >>= λ u. finish) {w = w} e in
      let (u, v', wrote, last) = >>=-eq-ok (write_file F path c) (λ x. finish) {w = v} second in
      let here : v ≡ w = sym (ap (λ x. x.1) first) in
      let there : v' ≡ w' = ap (λ x. x.1) last in
      (c, ap (λ x. x.0) first, rw (here, there) at wrote, ok-injective (ap (λ x. x.0) last))

  -- It wrote the contents for the key that was drawn, and returned its public half.
  pub generate-made :
      (path : F.PathBuf) (passphrase : Option Text) (d : Draws) (key : PubKey) (w w' : F.World)
      → generate C E V F path passphrase d w ≡ (ok key, w')
      → (c : Contents) × (new_contents C E V d (C.from_seed d.seed) passphrase ≡ ok c)
        × (write_file F path c w ≡ (ok tt, w'))
        × (public_of C E V (C.from_seed d.seed) ≡ key)
  unfolding generate
  generate-made path passphrase d key w w' e = elim (Bool-cases (F.exists path w)) [
    | inl there ↦ cc (rw there at e)
    | inr free ↦ create_new-inv path passphrase d key w w' (rw free at e)
  ]
