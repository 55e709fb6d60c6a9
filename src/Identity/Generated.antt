-- ===== src/Identity/Generated.antt =====
-- Which identity files load: those that `generate` writes.
use sqnr.Base
use sqnr.Base.{
  ℕ, ◌≡◌, refl, sym, ap, ◌∙◌, ◌⊎◌, ◌↔◌, inl, inr, Bool-cases, Option, none, some, List, ok, Result,
  ok-injective, map_err-eq-ok, and_then-eq-ok, length, ◌=?◌, =?_iff, replicate, arith,
}
use sqnr.Text.Utf8.{Text}
use sqnr.Core.Bytes.{IsArray, zeros-IsArray}
use sqnr.Core.Key.{Encodings, to_base58}
use sqnr.Core.Key.Laws
use sqnr.Core.Key.Forms.{IsCanonical, to_base58-from_base58}
use sqnr.Core.Key.Laws.{from_slice_iff}
use sqnr.Core.Key.Laws.{GivesBytes}
use sqnr.Core.Signed.{Crypto}
use sqnr.Core.Signed.Verify
use sqnr.Fs.{Fs}
use sqnr.Identity.{
  Vault, Draws, Contents, enc_header, plain_header, encrypt_seed, decrypt_seed, decode_plaintext,
  read_lines,
}
use sqnr.Identity.Files.{public_of, new_contents, unlock, unlock_sealed, load}
use sqnr.Identity.Guards.{load-inv, load_same}
use sqnr.Identity.Keeps.{KeepsSeeds, Keeps, new_contents-Keeps}
use sqnr.Identity.Seal
use sqnr.Identity.Seal.{IsDraws}
use sqnr.Identity.Sealed.{IsSealing, costs_today, signing_key_of-ok, decrypt_seed-sealed}

-- If the contents are sealed, then at today's costs.
abbrev pub HasCosts : Encodings → Contents → Type 0
HasCosts E c =
    (bs : List ℕ)
    → c.header ≡ enc_header
    → E.bs58_decode c.payload ≡ ok bs
    → Base.take 12 bs ≡ costs_today

module _ (C : Crypto) (E : Encodings) (V : Vault) where
  -- The contents are what a new file has, under this passphrase if there is one.
  abbrev pub IsNew : Contents → C.SigningKey → Option Text → Type 0
  IsNew c k passphrase =
      (d : Draws) × IsDraws d
      × (C.from_seed d.seed ≡ k)
      × (new_contents C E V d k passphrase ≡ ok c)

module _ (C : Crypto) (E : Encodings) (V : Vault) (keeps : KeepsSeeds C) (G : GivesBytes E)
    (canonical : IsCanonical E) (S : IsSealing V) where
  plain-IsNew :
      (c : Contents) (k : C.SigningKey)
      → c.header ≡ plain_header
      → to_base58 E (public_of C E V k) ≡ c.public
      → decode_plaintext C E V c.payload ≡ ok k
      → IsNew C E V c k none
  unfolding decode_plaintext new_contents
  plain-IsNew c k h public e =
      let (seed, decoded, cut) = and_then-eq-ok (Base.map_err (E.bs58_decode c.payload) _) _ e in
      let read = map_err-eq-ok (E.bs58_decode c.payload) _ seed decoded in
      let (size, same) = signing_key_of-ok C E V _ seed k cut in
      let array : IsArray 32 seed = record {
        size = size;
        bytes = G.bs58_bytes c.payload seed read;
      } in
      let payload : E.bs58_encode (C.seed_of k) ≡ c.payload =
        ap (λ x. E.bs58_encode (C.seed_of x)) (sym same)
        ∙ ap E.bs58_encode (keeps seed array)
        ∙ canonical c.payload seed read in
      (
        record { seed = seed; salt = replicate 16 0; nonce = replicate 12 0 },
        record { seed = array; salt = zeros-IsArray 16; nonce = zeros-IsArray 12 },
        same,
        λ i. ok (record { header = sym h i; payload = payload i; public = public i }),
      )

  sealed-IsNew :
      (c : Contents) (k : C.SigningKey) (passphrase : Text)
      → HasCosts E c
      → c.header ≡ enc_header
      → to_base58 E (public_of C E V k) ≡ c.public
      → decrypt_seed C E V c.payload passphrase ≡ ok k
      → IsNew C E V c k (some passphrase)
  unfolding new_contents decrypt_seed
  sealed-IsNew c k passphrase today h public e =
      let (bs, decoded, rest) = and_then-eq-ok (Base.map_err (E.bs58_decode c.payload) _) _ e in
      let read = map_err-eq-ok (E.bs58_decode c.payload) _ bs decoded in
      let (d, hd, same, made) =
        decrypt_seed-sealed C E V S passphrase c.payload bs k read (G.bs58_bytes c.payload bs read)
          (canonical c.payload bs read) (today bs h read) e in
      let seed : d.seed ≡ C.seed_of k = sym (keeps d.seed hd.seed) ∙ ap C.seed_of same in
      let sealed : encrypt_seed C E V d (C.seed_of k) passphrase ≡ ok c.payload =
        ap (λ x. encrypt_seed C E V d x passphrase) (sym seed) ∙ made in
      (
        d,
        hd,
        same,
        rw sealed (λ i. ok (record { header = sym h i; payload = c.payload; public = public i })),
      )

  unlock-IsNew :
      (c : Contents) (k : C.SigningKey) (passphrase : Option Text)
      → HasCosts E c
      → to_base58 E (public_of C E V k) ≡ c.public
      → unlock C E V c passphrase ≡ ok k
      → (p : Option Text) × ((p ≡ none) ⊎ (p ≡ passphrase)) × IsNew C E V c k p
  unfolding unlock unlock_sealed
  unlock-IsNew c k passphrase today public e = elim (Bool-cases (c.header =? enc_header)) [
    | inl enc ↦ opened passphrase ((=?_iff _ _).0 enc) (rw enc at e)
    | inr other ↦ elim (Bool-cases (c.header =? plain_header)) [
      | inl bare ↦
          (none, inl refl, plain-IsNew c k ((=?_iff _ _).0 bare) public (rw (other, bare) at e))
      | inr unknown ↦ cc (rw (other, unknown) at e)
    ]
  ]
    where
      opened :
          (passphrase : Option Text)
          → c.header ≡ enc_header
          → unlock_sealed C E V c.payload passphrase ≡ ok k
          → (p : Option Text) × ((p ≡ none) ⊎ (p ≡ passphrase)) × IsNew C E V c k p
      opened none h e = cc
      opened (some pp) h e = (some pp, inr refl, sealed-IsNew c k pp today h public e)

  -- A file that opens without a passphrase opens with any.
  unlock-none :
      (c : Contents) (k : C.SigningKey) (passphrase : Option Text)
      → unlock C E V c none ≡ ok k
      → unlock C E V c passphrase ≡ ok k
  unfolding unlock unlock_sealed
  unlock-none c k passphrase e = elim (Bool-cases (c.header =? enc_header)) [
    | inl enc ↦ cc (rw enc at e)
    | inr other ↦ rw other (rw other at e)
  ]

  module _ (L : Verify.IsLawful C) (LE : Laws.IsLawful E) (LV : Seal.IsLawful V) where
    IsNew-Keeps :
        (c : Contents) (k : C.SigningKey) (p : Option Text) → IsNew C E V c k p → Keeps C E V c k p
    IsNew-Keeps c k p (d, hd, same, made) = rw same at (
        new_contents-Keeps C E V L keeps LE LV d p c hd
          (ap (λ x. new_contents C E V d x p) same ∙ made))

    IsNew-unlock :
        (c : Contents) (k : C.SigningKey) (p passphrase : Option Text)
        → (p ≡ none) ⊎ (p ≡ passphrase)
        → Keeps C E V c k p
        → unlock C E V c passphrase ≡ ok k
    IsNew-unlock c k p passphrase (inl bare) kept =
        unlock-none c k passphrase (ap (λ x. unlock C E V c x) (sym bare) ∙ kept.unlocks)
    IsNew-unlock c k p passphrase (inr given) kept =
        ap (λ x. unlock C E V c x) (sym given) ∙ kept.unlocks

    module _ (F : Fs) where
      -- A file whose contents, if they are sealed, have today's costs loads to a key, by a passphrase
      -- if one is given, exactly where its contents are what `generate` puts into a file for that
      -- key, for some draws, and under that passphrase or none; and the file system is then as reading
      -- the file leaves it; where base58 has one form for each list of bytes, and a ciphertext opens
      -- only to what it seals.
      pub load-IsNew :
          (path : F.PathBuf) (passphrase : Option Text) (c : Contents) (k : C.SigningKey)
          (w w' : F.World)
          → read_lines F path w ≡ (ok c, w')
          → HasCosts E c
          → (load C E V F path passphrase w ≡ (ok k, w'))
            ↔ ((p : Option Text) × ((p ≡ none) ⊎ (p ≡ passphrase)) × IsNew C E V c k p)
      load-IsNew path passphrase c k w w' read today = (
        λ e.
            let (c', read', opens, public) = load-inv C E V F path passphrase k w w' e in
            let same : c' ≡ c = ok-injective (ap (λ x. x.0) (sym read' ∙ read)) in
            unlock-IsNew c k passphrase today
              (to_base58-from_base58 E canonical c.public (public_of C E V k) (rw same at public))
              (rw same at opens),
        λ (p, which, new).
            let kept = IsNew-Keeps c k p new in
            load_same C E V F path passphrase k c w w' read
              (IsNew-unlock c k p passphrase which kept) kept.public,
      )
