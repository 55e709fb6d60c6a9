-- ===== src/Identity/Seal.antt =====
-- A sealed seed is opened by the passphrase that sealed it.
use sqnr.Base
use sqnr.Base.{
  ℕ, ◌+◌, ◌≤◌, ◌≡◌, refl, sym, ◌∙◌, ap, true, false, List, [], ◌∷◌, ◌++◌, Result, ok, err, map_err,
  map_err-eq-ok, and_then, and_then-eq-ok, ok-injective, length, length-append, drop, take-append,
  drop-append, drop-drop, All, All-append, le→ltb_not, ltb, arith, if◌then◌else◌,
}
use sqnr.Text.Utf8.{Text, codes}
use sqnr.Core.Bytes.{IsBytes, IsArray, to_be_bytes, from_be_bytes, to_be_bytes-IsArray}
use sqnr.Core.Tx.Octets.{join}
use sqnr.Core.Key.{Encodings}
use sqnr.Core.Key.Laws
use sqnr.Core.Signed.{Crypto}
use sqnr.Identity.{
  Vault, Draws, argon2, cipher_of, blob, slice, encrypt_seed, signing_key_of, open_blob,
  decrypt_seed, argon_m_cost, argon_t_cost, argon_p_cost,
}

-- What the cipher promises: it opens what it sealed under the same key and nonce, and seals to bytes.
pub record IsLawful (V : Vault) : Type 0 where
  pub decrypt-encrypt :
      (c : V.Cipher) (nonce m ct : List ℕ)
      → V.encrypt c nonce m ≡ ok ct
      → V.decrypt c nonce ct ≡ ok m
  pub encrypt_bytes :
      (c : V.Cipher) (nonce m ct : List ℕ) → IsBytes m → V.encrypt c nonce m ≡ ok ct → IsBytes ct

pub record IsDraws (d : Draws) : Type 0 where
  pub seed : IsArray 32 d.seed
  pub salt : IsArray 16 d.salt
  pub nonce : IsArray 12 d.nonce

take_size : (n : ℕ) (a b : List ℕ) → length a ≡ n → Base.take n (a ++ b) ≡ a
take_size n a b h = rw (← h) (take-append a b)

drop_size : (n : ℕ) (a b : List ℕ) → length a ≡ n → drop n (a ++ b) ≡ b
drop_size n a b h = rw (← h) (drop-append a b)

-- The fields of a blob stand where `decrypt_seed` looks for them.
module _ (salt nonce ct : List ℕ) (hs : IsArray 16 salt) (hn : IsArray 12 nonce) where
  pub costs :
      (from_be_bytes (slice 0 4 (blob salt nonce ct)) ≡ argon_m_cost)
      × (from_be_bytes (slice 4 4 (blob salt nonce ct)) ≡ argon_t_cost)
      × (from_be_bytes (slice 8 4 (blob salt nonce ct)) ≡ argon_p_cost)
  unfolding blob to_be_bytes from_be_bytes
  costs = (refl, refl, refl)

  pub salt_at : slice 12 16 (blob salt nonce ct) ≡ salt
  unfolding blob to_be_bytes
  salt_at = take_size 16 salt (nonce ++ ct) hs.size

  pub nonce_at : slice 28 12 (blob salt nonce ct) ≡ nonce
  unfolding blob to_be_bytes
  nonce_at =
      ap (Base.take 12) (drop_size 16 salt (nonce ++ ct) hs.size) ∙ take_size 12 nonce ct hn.size

  pub ciphertext_at : drop 40 (blob salt nonce ct) ≡ ct
  unfolding blob to_be_bytes
  ciphertext_at =
      sym (drop-drop 12 16 28 (salt ++ (nonce ++ ct)) refl)
      ∙ ap (drop 12) (drop_size 16 salt (nonce ++ ct) hs.size)
      ∙ drop_size 12 nonce ct hn.size

  pub blob_long : 40 ≤ length (blob salt nonce ct)
  unfolding blob to_be_bytes
  blob_long =
      omega (arith, length-append salt (nonce ++ ct), length-append nonce ct, hs.size, hn.size)

  blob-IsBytes : IsBytes ct → IsBytes (blob salt nonce ct)
  unfolding blob
  blob-IsBytes h = join _ _ (to_be_bytes-IsArray argon_m_cost).bytes (
      join _ _ (to_be_bytes-IsArray argon_t_cost).bytes (
        join _ _ (to_be_bytes-IsArray argon_p_cost).bytes
          (join salt _ hs.bytes (join nonce ct hn.bytes h))))

module _ (C : Crypto) (E : Encodings) (LE : Laws.IsLawful E) (V : Vault) (LV : IsLawful V) where
  -- What `decrypt_seed` makes of a blob whose passphrase gives a cipher.
  pub decrypt_seed-blob :
      (d : Draws) (derived ct : List ℕ) (passphrase : Text) (cipher : V.Cipher)
      → IsDraws d
      → IsBytes ct
      → argon2 V argon_m_cost argon_t_cost argon_p_cost passphrase d.salt ≡ ok derived
      → cipher_of V derived ≡ ok cipher
      → decrypt_seed C E V (E.bs58_encode (blob d.salt d.nonce ct)) passphrase
        ≡ and_then
            (map_err
              (V.decrypt cipher d.nonce ct)
              (λ e. codes "decryption failed (wrong passphrase?)"))
            (signing_key_of C E V (codes "decrypted seed is not 32 bytes"))
  unfolding decrypt_seed open_blob
  decrypt_seed-blob d derived ct passphrase cipher hd hb e1 e2 =
      let (mc, tc, pc) = costs d.salt d.nonce ct hd.salt hd.nonce in
      rw
        (
          LE.bs58 _ (blob-IsBytes d.salt d.nonce ct hd.salt hd.nonce hb),
          le→ltb_not (length (blob d.salt d.nonce ct)) 40
              (blob_long d.salt d.nonce ct hd.salt hd.nonce),
          mc,
          tc,
          pc,
          salt_at d.salt d.nonce ct hd.salt hd.nonce,
          nonce_at d.salt d.nonce ct hd.salt hd.nonce,
          ciphertext_at d.salt d.nonce ct hd.salt hd.nonce,
          e1,
          e2,
        )
        refl

  opened :
      (d : Draws) (seed derived ct : List ℕ) (passphrase : Text) (cipher : V.Cipher)
      → IsDraws d
      → IsArray 32 seed
      → argon2 V argon_m_cost argon_t_cost argon_p_cost passphrase d.salt ≡ ok derived
      → cipher_of V derived ≡ ok cipher
      → V.encrypt cipher d.nonce seed ≡ ok ct
      → decrypt_seed C E V (E.bs58_encode (blob d.salt d.nonce ct)) passphrase
        ≡ ok (C.from_seed seed)
  unfolding signing_key_of
  opened d seed derived ct passphrase cipher hd hs e1 e2 e3 =
      decrypt_seed-blob d derived ct passphrase cipher hd
        (LV.encrypt_bytes cipher d.nonce seed ct hs.bytes e3) e1 e2
      ∙ rw (LV.decrypt-encrypt cipher d.nonce seed ct e3, hs.size) refl

  -- What `encrypt_seed` sealed a seed with.
  pub encrypt_seed-inv :
      (d : Draws) (seed : List ℕ) (passphrase sealed : Text)
      → encrypt_seed C E V d seed passphrase ≡ ok sealed
      → (derived : List ℕ) × (cipher : V.Cipher) × (ct : List ℕ) × (argon2 V argon_m_cost
            argon_t_cost argon_p_cost passphrase d.salt
          ≡ ok derived)
        × (cipher_of V derived ≡ ok cipher)
        × (V.encrypt cipher d.nonce seed ≡ ok ct)
        × (E.bs58_encode (blob d.salt d.nonce ct) ≡ sealed)
  unfolding encrypt_seed
  encrypt_seed-inv d seed passphrase sealed e =
      let (derived, e1, r1) =
        and_then-eq-ok (argon2 V argon_m_cost argon_t_cost argon_p_cost passphrase d.salt) _ e in
      let (cipher, e2, r2) = and_then-eq-ok (cipher_of V derived) _ r1 in
      let (ct, e3, r3) =
        and_then-eq-ok (map_err (V.encrypt cipher d.nonce seed) (λ x. codes "encrypt: " ++ x)) _
          r2 in
      (derived, cipher, ct, e1, e2, map_err-eq-ok _ _ ct e3, ok-injective r3)

  -- What `encrypt_seed` returns is the base58 form of some bytes.
  pub encrypt_seed-form :
      (d : Draws) (seed : List ℕ) (passphrase sealed : Text)
      → IsDraws d
      → IsBytes seed
      → encrypt_seed C E V d seed passphrase ≡ ok sealed
      → (bs : List ℕ) × IsBytes bs × (E.bs58_encode bs ≡ sealed)
  encrypt_seed-form d seed passphrase sealed hd hs e =
      let (derived, cipher, ct, e1, e2, e3, same) = encrypt_seed-inv d seed passphrase sealed e in
      (
        blob d.salt d.nonce ct,
        blob-IsBytes d.salt d.nonce ct hd.salt hd.nonce
            (LV.encrypt_bytes cipher d.nonce seed ct hs e3),
        same,
      )

  -- What `encrypt_seed` made of a 32-byte seed, `decrypt_seed` turns into the signing key of that
  -- seed, under the same passphrase, where the salt has 16 bytes and the nonce 12.
  pub decrypt_seed-encrypt_seed :
      (d : Draws) (seed : List ℕ) (passphrase sealed : Text)
      → IsDraws d
      → IsArray 32 seed
      → encrypt_seed C E V d seed passphrase ≡ ok sealed
      → decrypt_seed C E V sealed passphrase ≡ ok (C.from_seed seed)
  decrypt_seed-encrypt_seed d seed passphrase sealed hd hs e =
      let (derived, cipher, ct, e1, e2, e3, same) = encrypt_seed-inv d seed passphrase sealed e in
      ap (λ x. decrypt_seed C E V x passphrase) (sym same)
      ∙ opened d seed derived ct passphrase cipher hd hs e1 e2 e3
