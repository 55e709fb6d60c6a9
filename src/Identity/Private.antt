-- ===== src/Identity/Private.antt =====
-- Who can read a new identity file, and what becomes of the other files.
use sqnr.Base.{ℕ, ◌≡◌, refl, Option, some, List, ok, Bool-cases, inl, inr}
use sqnr.Text.Utf8.{Text, as_bytes}
use sqnr.Core.Key.{PubKey, Encodings}
use sqnr.Core.Signed.{Crypto}
use sqnr.Effect.Leaves.{Leaves, leaves_rules}
use sqnr.Fs.{Fs}
use sqnr.Identity.{Vault, Draws, Contents, file_text, write_file}
use sqnr.Identity.Made.{generate-made, write_file-inv}
use sqnr.Identity.Files.{generate, create_new, new_contents}

-- What a file holds, and the permissions on it.
pub record File : Type 0 where
  pub bytes : List ℕ
  pub mode : ℕ

-- A file system in which writing a file and setting its permissions change that file, as they say,
-- and no file that is apart from it.
pub record HasFiles (F : Fs) : Type 1 where
  pub file : F.PathBuf → F.World → Option File
  pub Apart : F.PathBuf → F.PathBuf → Type 0
  pub writes :
      (p : F.PathBuf) (bs : List ℕ) (w w' : F.World)
      → F.write p bs w ≡ (ok tt, w')
      → (mode : ℕ) × (file p w' ≡ some (record { bytes = bs; mode = mode }))
  pub permits :
      (p : F.PathBuf) (m : ℕ) (f : File) (w w' : F.World)
      → file p w ≡ some f
      → F.set_permissions p m w ≡ (ok tt, w')
      → file p w' ≡ some (record f { mode = m })
  pub write : (p q : F.PathBuf) (bs : List ℕ) → Apart p q → Leaves (file q) (F.write p bs)
  pub set_permissions :
      (p q : F.PathBuf) (m : ℕ) → Apart p q → Leaves (file q) (F.set_permissions p m)

module _ (F : Fs) (K : HasFiles F) where
  write_file-Leaves :
      (p q : F.PathBuf) (c : Contents) → K.Apart p q → Leaves (K.file q) (write_file F p c)
  unfolding write_file
  write_file-Leaves p q c h = search (leaves_rules, K.write, K.set_permissions) depth 9

  -- The file that is written is for its owner alone.
  write_file-IsPrivate :
      (p : F.PathBuf) (c : Contents) (w w' : F.World)
      → write_file F p c w ≡ (ok tt, w')
      → K.file p w' ≡ some (record { bytes = as_bytes (file_text c); mode = 0o600 })
  write_file-IsPrivate p c w w' e =
      let (v, wrote, moded) = write_file-inv F p c w w' e in
      let (mode, holds) = K.writes p (as_bytes (file_text c)) w v wrote in
      K.permits p 0o600 _ v w' holds moded

  module _ (C : Crypto) (E : Encodings) (V : Vault) where
    create_new-Leaves :
        (p q : F.PathBuf) (passphrase : Option Text) (d : Draws)
        → K.Apart p q
        → Leaves (K.file q) (create_new C E V F p passphrase d)
    unfolding create_new
    create_new-Leaves p q passphrase d h = search (leaves_rules, write_file-Leaves) depth 9

    -- Whatever comes of it, `generate` leaves every file apart from the new one as it was.
    pub generate-Leaves :
        (p q : F.PathBuf) (passphrase : Option Text) (d : Draws)
        → K.Apart p q
        → Leaves (K.file q) (generate C E V F p passphrase d)
    unfolding generate
    generate-Leaves p q passphrase d h = record {
      at = λ w. elim (Bool-cases (F.exists p w)) [
        | inl there ↦ rw there refl
        | inr free ↦ rw free ((create_new-Leaves p q passphrase d h).at w)
      ];
    }

    -- Where `generate` makes an identity, its file has the contents for that passphrase and the mode
    -- 0600.
    pub generate-IsPrivate :
        (p : F.PathBuf) (passphrase : Option Text) (d : Draws) (key : PubKey) (w w' : F.World)
        → generate C E V F p passphrase d w ≡ (ok key, w')
        → (c : Contents) × (new_contents C E V d (C.from_seed d.seed) passphrase ≡ ok c)
          × (K.file p w' ≡ some (record { bytes = as_bytes (file_text c); mode = 0o600 }))
    generate-IsPrivate p passphrase d key w w' e =
        let (c, made, wrote, same) = generate-made C E V F p passphrase d key w w' e in
        (c, made, write_file-IsPrivate p c w w' wrote)
