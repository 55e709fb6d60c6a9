-- ===== src/Identity/Files.antt =====
-- crates/sqnr/src/identity.rs: making, reading and loading identity files.
use sqnr.Base.{
  Bool, Option, none, some, ◌++◌, Result, ok, err, map_err, and_then, ◌=?◌, not, if◌then◌else◌,
}
use sqnr.Text.Utf8.{Text, codes}
use sqnr.Core.Error.{display}
use sqnr.Core.Key.{PubKey, Encodings, to_base58, from_base58}
use sqnr.Core.Signed.{Crypto}
use sqnr.Effect.{Act, pure, fail, lift, rename, ◌>>=◌, ◌>>◌}
use sqnr.Fs.{Fs}
use sqnr.Identity.{
  Vault, Draws, Contents, enc_header, plain_header, encrypt_seed, decrypt_seed, decode_plaintext,
  read_lines, write_file,
}

module _ (F : Fs) where
  ensure_dir : F.PathBuf → Act F.World F.PathBuf
  ensure_dir dir w =
      if F.exists dir w
      then pure dir w
      else (rename (λ e. codes "create " ++ (F.display dir ++ (codes ": " ++ e)))
              (F.create_dir_all dir)
            >>= λ _.
                rename (λ e. codes "chmod " ++ (F.display dir ++ (codes ": " ++ e)))
                  (F.set_permissions dir 0o700)
                >>= λ _. pure dir)
          w

  dir_in : Option F.PathBuf → Act F.World F.PathBuf
  unfolding ensure_dir
  dir_in none = fail (codes "cannot locate home directory")
  dir_in (some home) = ensure_dir (F.join home (codes ".sqnr"))

  unfoldable pub sqnr_dir : Act F.World F.PathBuf
  unfolding dir_in
  sqnr_dir w = dir_in (F.home_dir w) w

  unfoldable pub default_identity_path : Act F.World F.PathBuf
  default_identity_path = do dir ← sqnr_dir; pure (F.join dir (codes "identity"))

module _ (C : Crypto) (E : Encodings) (V : Vault) where
  unfoldable pub public_of : C.SigningKey → PubKey
  public_of k = record { raw = C.to_bytes (C.verifying_key k) }

  -- The contents of a new file: sealed under a passphrase, or the bare seed.
  unfoldable pub new_contents : Draws → C.SigningKey → Option Text → Result Contents Text
  new_contents d k none = ok (record {
    header = plain_header;
    payload = E.bs58_encode (C.seed_of k);
    public = to_base58 E (public_of k);
  })
  new_contents d k (some pp) = and_then (encrypt_seed C E V d (C.seed_of k) pp) λ sealed.
      ok (record { header = enc_header; payload = sealed; public = to_base58 E (public_of k) })

  -- The arm of `load` for an encrypted file.
  unfoldable pub unlock_sealed : Text → Option Text → Result C.SigningKey Text
  unlock_sealed payload none = err (codes "identity is encrypted; a passphrase is required")
  unlock_sealed payload (some pp) = decrypt_seed C E V payload pp

  -- The key in a file, opened with the passphrase that is given, if any.
  unfoldable pub unlock : Contents → Option Text → Result C.SigningKey Text
  unlock c passphrase =
      if c.header =? enc_header
      then unlock_sealed c.payload passphrase
      else if c.header =? plain_header
      then decode_plaintext C E V c.payload
      else err (codes "unknown identity header \"" ++ (c.header ++ codes "\""))

  -- The tamper guard of `load`.
  unfoldable pub guarded : Contents → C.SigningKey → Result C.SigningKey Text
  guarded c k =
      and_then (map_err (from_base58 E c.public) (λ e. codes "bad public key line: " ++ display e))
        λ stored.
          if not ((public_of k).raw =? stored.raw)
          then err (codes "identity file is inconsistent (public key does not match seed)")
          else ok k

  module _ (F : Fs) where
    -- `generate` where there is no file yet.
    unfoldable pub create_new : F.PathBuf → Option Text → Draws → Act F.World PubKey
    create_new path passphrase d = do
      contents ← lift (new_contents d (C.from_seed d.seed) passphrase)
      write_file F path contents
      pure (public_of (C.from_seed d.seed))

    unfoldable pub generate : F.PathBuf → Option Text → Draws → Act F.World PubKey
    generate path passphrase d w =
        if F.exists path w
        then fail (F.display path ++ codes " already exists; refusing to overwrite") w
        else create_new path passphrase d w

    unfoldable pub is_encrypted : F.PathBuf → Act F.World Bool
    is_encrypted path = do c ← read_lines F path; pure (c.header =? enc_header)

    unfoldable pub read_public : F.PathBuf → Act F.World PubKey
    read_public path = do
      c ← read_lines F path
      lift (map_err (from_base58 E c.public) (λ e. codes "bad public key line: " ++ display e))

    unfoldable pub load : F.PathBuf → Option Text → Act F.World C.SigningKey
    load path passphrase = do
      c ← read_lines F path
      k ← lift (unlock c passphrase)
      lift (guarded c k)
