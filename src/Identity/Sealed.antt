-- ===== src/Identity/Sealed.antt =====
-- Which sealed seeds open: those that `encrypt_seed` makes.
use sqnr.Base
use sqnr.Base.{
  ℕ, ◌-◌, ◌≤◌, ◌≡◌, refl, sym, ap, ◌∙◌, inl, inr, Bool-cases, List, ◌++◌, ok, Result, map_err-eq-ok,
  and_then-eq-ok, length, length-take, length-drop, take-append-drop, drop-drop, drop, ltb, ◌==◌,
  not, All-append_left, All-append_right, arith,
}
use sqnr.Text.Utf8.{Text}
use sqnr.Core.Bytes.{IsBytes, IsArray, to_be_bytes}
use sqnr.Core.Key.{Encodings}
use sqnr.Core.Signed.{Crypto}
use sqnr.Identity.{
  Vault, Draws, argon2, cipher_of, blob, slice, encrypt_seed, signing_key_of, open_blob,
  decrypt_seed, argon_m_cost, argon_t_cost, argon_p_cost,
}
use sqnr.Identity.Seal.{IsDraws, costs, salt_at, nonce_at, ciphertext_at}

-- What an authenticated cipher promises: what it opens is what it would seal, and bytes open to bytes.
pub record IsSealing (V : Vault) : Type 0 where
  pub encrypt-decrypt :
      (c : V.Cipher) (nonce m ct : List ℕ)
      → V.decrypt c nonce ct ≡ ok m
      → V.encrypt c nonce m ≡ ok ct
  pub decrypt_bytes :
      (c : V.Cipher) (nonce m ct : List ℕ) → IsBytes ct → V.decrypt c nonce ct ≡ ok m → IsBytes m

-- The first 12 bytes of a blob that is made today.
unfoldable pub costs_today : List ℕ
costs_today = to_be_bytes argon_m_cost ++ (to_be_bytes argon_t_cost ++ to_be_bytes argon_p_cost)

-- A long enough blob with today's costs is made of its parts.
blob-parts :
    (bs : List ℕ)
    → Base.take 12 bs ≡ costs_today
    → blob (slice 12 16 bs) (slice 28 12 bs) (drop 40 bs) ≡ bs
unfolding blob costs_today to_be_bytes
blob-parts bs h =
    ap (λ x. costs_today ++ (slice 12 16 bs ++ (slice 28 12 bs ++ x)))
      (sym (drop-drop 12 28 40 bs refl))
    ∙ ap (λ x. costs_today ++ (slice 12 16 bs ++ x)) (take-append-drop 12 (drop 28 bs))
    ∙ ap (λ x. costs_today ++ (slice 12 16 bs ++ x)) (sym (drop-drop 16 12 28 bs refl))
    ∙ ap (λ x. costs_today ++ x) (take-append-drop 16 (drop 12 bs))
    ∙ ap (λ x. x ++ drop 12 bs) (sym h)
    ∙ take-append-drop 12 bs

drop-IsBytes : (n : ℕ) (bs : List ℕ) → IsBytes bs → IsBytes (drop n bs)
drop-IsBytes n bs h = All-append_right _ (Base.take n bs) (drop n bs) (rw (take-append-drop n bs) h)

slice-IsArray :
    (from n : ℕ) (bs : List ℕ)
    → from ≤ length bs
    → n ≤ length bs - from
    → IsBytes bs
    → IsArray n (slice from n bs)
slice-IsArray from n bs h h' hb = record {
  size = length-take n (drop from bs) (omega (arith, length-drop from bs));
  bytes =
      All-append_left _ (slice from n bs) (drop n (drop from bs))
        (rw (take-append-drop n (drop from bs)) (drop-IsBytes from bs hb));
}

module _ (C : Crypto) (E : Encodings) (V : Vault) where
  pub signing_key_of-ok :
      (message : Text) (seed : List ℕ) (k : C.SigningKey)
      → signing_key_of C E V message seed ≡ ok k
      → (length seed ≡ 32) × (C.from_seed seed ≡ k)
  unfolding signing_key_of
  signing_key_of-ok message seed k e = ground arith

  seals :
      (d : Draws) (derived ct : List ℕ) (passphrase : Text) (cipher : V.Cipher)
      → argon2 V argon_m_cost argon_t_cost argon_p_cost passphrase d.salt ≡ ok derived
      → cipher_of V derived ≡ ok cipher
      → V.encrypt cipher d.nonce d.seed ≡ ok ct
      → encrypt_seed C E V d d.seed passphrase ≡ ok (E.bs58_encode (blob d.salt d.nonce ct))
  unfolding encrypt_seed
  seals d derived ct passphrase cipher e1 e2 e3 = rw (e1, e2, e3) refl

  module _ (S : IsSealing V) where
    open_blob-blob :
        (salt nonce ct : List ℕ) (passphrase : Text) (k : C.SigningKey)
        → IsArray 16 salt
        → IsArray 12 nonce
        → IsBytes ct
        → open_blob C E V (blob salt nonce ct) passphrase ≡ ok k
        → (seed : List ℕ) × IsArray 32 seed
          × (C.from_seed seed ≡ k)
          × (encrypt_seed C E V (record { seed = seed; salt = salt; nonce = nonce }) seed passphrase
              ≡ ok (E.bs58_encode (blob salt nonce ct)))
    unfolding open_blob
    open_blob-blob salt nonce ct passphrase k hs hn hb e =
        let (mc, tc, pc) = costs salt nonce ct hs hn in
        let opens =
          rw
            (
              mc,
              tc,
              pc,
              salt_at salt nonce ct hs hn,
              nonce_at salt nonce ct hs hn,
              ciphertext_at salt nonce ct hs hn,
            )
            at e in
        let (derived, e1, r1) =
          and_then-eq-ok (argon2 V argon_m_cost argon_t_cost argon_p_cost passphrase salt) _
            opens in
        let (cipher, e2, r2) = and_then-eq-ok (cipher_of V derived) _ r1 in
        let (seed, e3, r3) = and_then-eq-ok (Base.map_err (V.decrypt cipher nonce ct) _) _ r2 in
        let opened = map_err-eq-ok (V.decrypt cipher nonce ct) _ seed e3 in
        let (size, same) = signing_key_of-ok _ seed k r3 in
        (
          seed,
          record { size = size; bytes = S.decrypt_bytes cipher nonce seed ct hb opened },
          same,
          seals (record { seed = seed; salt = salt; nonce = nonce }) derived ct passphrase cipher e1
              e2 (S.encrypt-decrypt cipher nonce seed ct opened),
        )

    -- A sealed seed with today's costs that a passphrase opens is what `encrypt_seed` makes of that
    -- passphrase, of some draws, and of a seed of the key.
    pub decrypt_seed-sealed :
        (passphrase sealed : Text) (bs : List ℕ) (k : C.SigningKey)
        → E.bs58_decode sealed ≡ ok bs
        → IsBytes bs
        → E.bs58_encode bs ≡ sealed
        → Base.take 12 bs ≡ costs_today
        → decrypt_seed C E V sealed passphrase ≡ ok k
        → (d : Draws) × IsDraws d
          × (C.from_seed d.seed ≡ k)
          × (encrypt_seed C E V d d.seed passphrase ≡ ok sealed)
    unfolding decrypt_seed
    decrypt_seed-sealed passphrase sealed bs k decoded hb back today e =
        elim (Bool-cases (ltb (length bs) 40)) [
          | inl short ↦ cc (rw (decoded, short) at e)
          | inr long ↦
              let enough : 40 ≤ length bs = ground arith in
              let hs = slice-IsArray 12 16 bs (omega arith) (omega arith) hb in
              let hn = slice-IsArray 28 12 bs (omega arith) (omega arith) hb in
              let parts = blob-parts bs today in
              let opens : open_blob C E V bs passphrase ≡ ok k = rw (decoded, long) at e in
              let (seed, size, same, made) =
                open_blob-blob (slice 12 16 bs) (slice 28 12 bs) (drop 40 bs) passphrase k hs hn
                  (drop-IsBytes 40 bs hb) (ap (λ x. open_blob C E V x passphrase) parts ∙ opens) in
              (
                record { seed = seed; salt = slice 12 16 bs; nonce = slice 28 12 bs },
                record { seed = size; salt = hs; nonce = hn },
                same,
                made ∙ ap (λ x. ok (E.bs58_encode x)) parts ∙ ap ok back,
              )
        ]
