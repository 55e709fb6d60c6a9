-- ===== src/Identity/Keeps.antt =====
-- What a new identity file holds.
use sqnr.Base.{
  ℕ, ◌≡◌, ◌⊎◌, inl, inr, refl, Bool, true, false, Option, none, some, List, ok, and_then-eq-ok,
  ok-injective, All-append, ◌=?◌, =?_refl, arith,
}
use sqnr.Text.Utf8.{Text, IsText, IsScalar}
use sqnr.Core.Bytes.{IsBytes, IsArray}
use sqnr.Core.Key.{Encodings, to_base58, from_base58}
use sqnr.Core.Key.Laws
use sqnr.Core.Key.Laws.{from_base58-to_base58}
use sqnr.Core.Signed.{Crypto}
use sqnr.Core.Signed.Verify
use sqnr.Identity.{
  Vault, Draws, Contents, enc_header, plain_header, file_text, encrypt_seed, decode_plaintext,
  signing_key_of,
}
use sqnr.Identity.Files.{public_of, new_contents, unlock, unlock_sealed, guarded}
use sqnr.Identity.Parse.{IsContents}
use sqnr.Identity.Seal
use sqnr.Identity.Seal.{IsDraws, decrypt_seed-encrypt_seed, encrypt_seed-form}

-- A key knows the seed that it was made of.
abbrev pub KeepsSeeds : Crypto → Type 0
KeepsSeeds C = (seed : List ℕ) → IsArray 32 seed → C.seed_of (C.from_seed seed) ≡ seed

-- Whether there is a passphrase.
abbrev pub is_some : Option Text → Bool
is_some none = false
is_some (some pp) = true

module _ (C : Crypto) (E : Encodings) (V : Vault) where
  -- The contents of a file that keeps this key, under this passphrase if there is one.
  pub record Keeps (c : Contents) (k : C.SigningKey) (passphrase : Option Text) : Type 0 where
    pub lines : IsContents c
    pub text : IsText (file_text c)
    pub public : from_base58 E c.public ≡ ok (public_of C E V k)
    pub unlocks : unlock C E V c passphrase ≡ ok k
    pub header : (c.header =? enc_header) ≡ is_some passphrase

  abbrev contents_of : Text → List ℕ → C.SigningKey → Contents
  contents_of header bs k = record {
    header = header;
    payload = E.bs58_encode bs;
    public = to_base58 E (public_of C E V k);
  }

  module _ (L : Verify.IsLawful C) (keeps : KeepsSeeds C) (LE : Laws.IsLawful E)
      (LV : Seal.IsLawful V) where
    public_of-bytes : (k : C.SigningKey) → IsArray 32 (public_of C E V k).raw
    unfolding public_of
    public_of-bytes k = L.to_bytes_size k

    contents_of-IsContents :
        (header : Text) (bs : List ℕ) (k : C.SigningKey)
        → (header ≡ enc_header) ⊎ (header ≡ plain_header)
        → IsBytes bs
        → IsContents (contents_of header bs k)
    unfolding to_base58
    contents_of-IsContents header bs k known hb = record {
      known = known;
      payload = LE.bs58_solid bs hb;
      public = LE.bs58_solid (public_of C E V k).raw (public_of-bytes k).bytes;
    }

    file_text-IsText :
        (header : Text) (bs : List ℕ) (k : C.SigningKey)
        → IsText header
        → IsBytes bs
        → IsText (file_text (contents_of header bs k))
    unfolding file_text to_base58
    file_text-IsText header bs k hh hb =
        let feed : IsScalar 10 = (omega arith, inl (omega arith)) in
        All-append IsScalar header _ hh (
          feed,
          All-append IsScalar (E.bs58_encode bs) _ (LE.bs58_text bs hb) (
            feed,
            All-append IsScalar (E.bs58_encode (public_of C E V k).raw) _
                (LE.bs58_text (public_of C E V k).raw (public_of-bytes k).bytes) (feed, tt),
          ),
        )

    contents_of-Keeps :
        (header : Text) (bs : List ℕ) (k : C.SigningKey) (passphrase : Option Text)
        → (header ≡ enc_header) ⊎ (header ≡ plain_header)
        → IsText header
        → IsBytes bs
        → unlock C E V (contents_of header bs k) passphrase ≡ ok k
        → (header =? enc_header) ≡ is_some passphrase
        → Keeps (contents_of header bs k) k passphrase
    contents_of-Keeps header bs k passphrase known hh hb opens which = record {
      lines = contents_of-IsContents header bs k known hb;
      text = file_text-IsText header bs k hh hb;
      public = from_base58-to_base58 E LE _ (public_of-bytes k);
      unlocks = opens;
      header = which;
    }

    plain-Keeps :
        (seed : List ℕ)
        → IsArray 32 seed
        → Keeps
            (contents_of plain_header (C.seed_of (C.from_seed seed)) (C.from_seed seed))
            (C.from_seed seed)
            none
    unfolding unlock decode_plaintext signing_key_of ◌=?◌
    plain-Keeps seed hs = rw (keeps seed hs) (
        contents_of-Keeps plain_header seed (C.from_seed seed) none (inr refl) (omega arith)
          hs.bytes (rw (LE.bs58 seed hs.bytes, hs.size)) refl)

    sealed-Keeps :
        (d : Draws) (pp sealed : Text)
        → IsDraws d
        → encrypt_seed C E V d d.seed pp ≡ ok sealed
        → Keeps
            (record {
              header = enc_header;
              payload = sealed;
              public = to_base58 E (public_of C E V (C.from_seed d.seed));
            })
            (C.from_seed d.seed)
            (some pp)
    unfolding unlock unlock_sealed ◌=?◌
    sealed-Keeps d pp sealed hd e =
        let (bs, hb, same) = encrypt_seed-form C E LE V LV d d.seed pp sealed hd hd.seed.bytes e in
        rw (← same) (
          contents_of-Keeps enc_header bs (C.from_seed d.seed) (some pp) (inl refl) (omega arith) hb
            (rw same (decrypt_seed-encrypt_seed C E LE V LV d d.seed pp sealed hd hd.seed e)) refl)

    -- What `generate` puts into a file keeps the key that it made.
    pub new_contents-Keeps :
        (d : Draws) (passphrase : Option Text) (c : Contents)
        → IsDraws d
        → new_contents C E V d (C.from_seed d.seed) passphrase ≡ ok c
        → Keeps c (C.from_seed d.seed) passphrase
    unfolding new_contents
    new_contents-Keeps d none c hd e = rw (← ok-injective e) (plain-Keeps d.seed hd.seed)
    new_contents-Keeps d (some pp) c hd e =
        let (sealed, e1, e2) =
          and_then-eq-ok (encrypt_seed C E V d (C.seed_of (C.from_seed d.seed)) pp) _ e in
        rw (← ok-injective e2) (sealed-Keeps d pp sealed hd (rw (keeps d.seed hd.seed) at e1))

    -- The tamper guard lets the key of such a file pass.
    pub guarded-Keeps :
        (c : Contents) (k : C.SigningKey)
        → from_base58 E c.public ≡ ok (public_of C E V k)
        → guarded C E V c k ≡ ok k
    unfolding guarded
    guarded-Keeps c k h = rw (h, =?_refl (public_of C E V k).raw)
