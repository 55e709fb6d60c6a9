-- ===== src/Identity/Written.antt =====
-- What stands in a new identity file.
use sqnr.Base.{
  ℕ, ◌≡◌, sym, ap, ◌∙◌, Option, none, some, List, [], ◌∷◌, ◌++◌, ok, ok-injective, map_err-eq-ok,
  and_then-eq-ok, map_err,
}
use sqnr.Text.Utf8.{Text, codes, as_bytes}
use sqnr.Core.Bytes.{to_be_bytes}
use sqnr.Core.Key.{Encodings, to_base58}
use sqnr.Core.Signed.{Crypto}
use sqnr.Identity.{
  Vault, Draws, Contents, file_text, argon2, cipher_of, blob, encrypt_seed, argon_m_cost,
  argon_t_cost, argon_p_cost,
}
use sqnr.Identity.Files.{new_contents, public_of}

module _ (C : Crypto) (E : Encodings) (V : Vault) (d : Draws) where
  -- The seed of the new key.
  abbrev new_seed : List ℕ
  new_seed = C.seed_of (C.from_seed d.seed)

  -- Three lines: a header, a payload, and the new key's public half in base58.
  abbrev three_lines : Text → Text → Text
  three_lines header payload =
      header
      ++ (10 ∷ payload
          ++ (10 ∷ E.bs58_encode (C.to_bytes (C.verifying_key (C.from_seed d.seed))) ++ (10 ∷ [])))

  -- Without a passphrase the seed stands in the file. Under a passphrase stands its ciphertext, by the
  -- key that Argon2id gives of the passphrase and the salt with 64 MiB, 3 rounds and 4 lanes; before it
  -- those costs, the salt and the nonce.
  abbrev pub Written : Option Text → Text → Type 0
  Written none text = text ≡ three_lines (codes "SQNR-ED25519-PRIVATE-KEY") (E.bs58_encode new_seed)
  Written (some pass) text =
      (params : V.Params) × (derived : List ℕ) × (cipher : V.Cipher) × (ct : List ℕ) × (V.params
          65536 3 4 32
        ≡ ok params)
      × (V.hash_password params (as_bytes pass) d.salt ≡ ok derived)
      × (V.new_cipher derived ≡ ok cipher)
      × (V.encrypt cipher d.nonce new_seed ≡ ok ct)
      × (text
          ≡ three_lines (codes "SQNR-ED25519-ENCRYPTED-KEY") (
              E.bs58_encode
                (0 ∷ 1 ∷ 0 ∷ 0 ∷ 0 ∷ 0 ∷ 0 ∷ 3 ∷ 0 ∷ 0 ∷ 0 ∷ 4 ∷ d.salt ++ (d.nonce ++ ct))))

  sealed-Written :
      (pass sealed : Text)
      → encrypt_seed C E V d new_seed pass ≡ ok sealed
      → Written (some pass) (three_lines (codes "SQNR-ED25519-ENCRYPTED-KEY") sealed)
  unfolding encrypt_seed argon2 cipher_of blob to_be_bytes
  sealed-Written pass sealed e =
      let (derived, e1, r1) =
        and_then-eq-ok (argon2 V argon_m_cost argon_t_cost argon_p_cost pass d.salt) _ e in
      let (params, p1, p2) =
        and_then-eq-ok (map_err (V.params 65536 3 4 32) (λ x. codes "argon2 params: " ++ x)) _ e1 in
      let (cipher, e2, r2) = and_then-eq-ok (cipher_of V derived) _ r1 in
      let (ct, e3, r3) =
        and_then-eq-ok (map_err (V.encrypt cipher d.nonce new_seed) (λ x. codes "encrypt: " ++ x)) _
          r2 in
      (
        params,
        derived,
        cipher,
        ct,
        map_err-eq-ok _ _ params p1,
        map_err-eq-ok _ _ derived p2,
        map_err-eq-ok _ _ cipher e2,
        map_err-eq-ok _ _ ct e3,
        ap (three_lines (codes "SQNR-ED25519-ENCRYPTED-KEY")) (sym (ok-injective r3)),
      )

  pub new_contents-Written :
      (pass : Option Text) (c : Contents)
      → new_contents C E V d (C.from_seed d.seed) pass ≡ ok c
      → Written pass (file_text c)
  unfolding new_contents file_text public_of to_base58
  new_contents-Written none c e = ap file_text (sym (ok-injective e))
  new_contents-Written (some pass) c e =
      let (sealed, sealing, rest) = and_then-eq-ok (encrypt_seed C E V d new_seed pass) _ e in
      let (params, derived, cipher, ct, p, h, n, s, same) = sealed-Written pass sealed sealing in
      (params, derived, cipher, ct, p, h, n, s, ap file_text (sym (ok-injective rest)) ∙ same)
