-- ===== src/Identity/RoundTrip.antt =====
-- An identity file that was generated loads again.
use sqnr.Base.{◌≡◌, Option, ok}
use sqnr.Text.Utf8.{Text, IsText, as_bytes}
use sqnr.Core.Key.{PubKey, Encodings}
use sqnr.Core.Key.Laws
use sqnr.Core.Key.Laws.{from_base58-to_base58}
use sqnr.Core.Signed.{Crypto}
use sqnr.Core.Signed.Verify
use sqnr.Fs.{Fs}
use sqnr.Identity.{Vault, Draws, Contents, file_text, read_lines, write_file}
use sqnr.Identity.Files.{public_of, new_contents, generate, is_encrypted, read_public, load}
use sqnr.Identity.Parse.{IsContents, parse_lines-file_text}
use sqnr.Identity.Seal
use sqnr.Identity.Seal.{IsDraws, decrypt_seed-encrypt_seed, encrypt_seed-form}
use sqnr.Identity.Made.{generate-made, write_file-inv}
use sqnr.Identity.Keeps.{KeepsSeeds, is_some, Keeps, new_contents-Keeps, guarded-Keeps}

-- What the file system promises: a text that was written is what the next reading gives, also after
-- the mode was set to 0600.
pub record IsLawful (F : Fs) : Type 0 where
  pub read_written :
      (path : F.PathBuf) (s : Text) (w w1 w2 : F.World)
      → IsText s
      → F.write path (as_bytes s) w ≡ (ok tt, w1)
      → F.set_permissions path 0o600 w1 ≡ (ok tt, w2)
      → (F.read_to_string path w2).0 ≡ ok s

module _ (F : Fs) (LF : IsLawful F) where
  -- What is read after a file was written.
  read_lines-write_file :
      (path : F.PathBuf) (c : Contents) (w w' : F.World)
      → IsContents c
      → IsText (file_text c)
      → write_file F path c w ≡ (ok tt, w')
      → (read_lines F path w').0 ≡ ok c
  unfolding read_lines
  read_lines-write_file path c w w' h text e =
      let (v, first, second) = write_file-inv F path c w w' e in
      rw (LF.read_written path (file_text c) w v w' text first second)
        (parse_lines-file_text (F.display path) c h)

module _ (C : Crypto) (L : Verify.IsLawful C) (keeps : KeepsSeeds C) (E : Encodings)
    (LE : Laws.IsLawful E) (V : Vault) (LV : Seal.IsLawful V) (F : Fs) (LF : IsLawful F) where
  -- What is read from a file that keeps a key.
  reads_back :
      (path : F.PathBuf) (passphrase : Option Text) (c : Contents) (k : C.SigningKey) (w : F.World)
      → Keeps C E V c k passphrase
      → (read_lines F path w).0 ≡ ok c
      → ((load C E V F path passphrase w).0 ≡ ok k)
        × ((read_public C E V F path w).0 ≡ ok (public_of C E V k))
        × ((is_encrypted C E V F path w).0 ≡ ok (is_some passphrase))
  unfolding load read_public is_encrypted
  reads_back path passphrase c k w h e = (
    rw (e, h.unlocks) (guarded-Keeps C E V L keeps LE LV c k h.public),
    rw (e, h.public),
    rw (e, h.header),
  )

  -- What `generate` left, where it made an identity.
  pub generate-inv :
      (path : F.PathBuf) (passphrase : Option Text) (d : Draws) (key : PubKey) (w w' : F.World)
      → IsDraws d
      → generate C E V F path passphrase d w ≡ (ok key, w')
      → (c : Contents) × (new_contents C E V d (C.from_seed d.seed) passphrase ≡ ok c)
        × Keeps C E V c (C.from_seed d.seed) passphrase
        × ((read_lines F path w').0 ≡ ok c)
        × (public_of C E V (C.from_seed d.seed) ≡ key)
  generate-inv path passphrase d key w w' hd e =
      let (c, made, wrote, same) = generate-made C E V F path passphrase d key w w' e in
      let kept = new_contents-Keeps C E V L keeps LE LV d passphrase c hd made in
      (c, made, kept, read_lines-write_file F LF path c w w' kept.lines kept.text wrote, same)

  -- Where `generate` makes an identity, the file that it leaves loads under the same passphrase, or
  -- none, to the key of the seed that was drawn; its public key is read back as the one returned; and
  -- it counts as encrypted if there was a passphrase.
  pub load-generate :
      (path : F.PathBuf) (passphrase : Option Text) (d : Draws) (key : PubKey) (w w' : F.World)
      → IsDraws d
      → generate C E V F path passphrase d w ≡ (ok key, w')
      → ((load C E V F path passphrase w').0 ≡ ok (C.from_seed d.seed))
        × ((read_public C E V F path w').0 ≡ ok key)
        × ((is_encrypted C E V F path w').0 ≡ ok (is_some passphrase))
  load-generate path passphrase d key w w' hd e =
      let (c, made, kept, read, same) = generate-inv path passphrase d key w w' hd e in
      rw (← same) (reads_back path passphrase c (C.from_seed d.seed) w' kept read)
