-- ===== src/Identity.antt =====
-- crates/sqnr/src/identity.rs: the software identity in a file.
pub mod Files
pub mod Seal
pub mod Parse
pub mod Made
pub mod Keeps
pub mod RoundTrip
pub mod Guards
pub mod Locked
pub mod Written
pub mod Private
pub mod Edited
pub mod Sealed
pub mod Generated
use sqnr.Base
use sqnr.Base.{
  ℕ, ◌+◌, ◌≤◌, Bool, true, false, ◌&&◌, Option, none, some, List, [], ◌∷◌, ◌++◌, Result, ok, err,
  map_err, and_then, length, ltb, ◌==◌, ◌=?◌, not, if◌then◌else◌, drop,
}
use sqnr.Text.Utf8.{Text, codes, as_bytes}
use sqnr.Text.Trim.{trim}
use sqnr.Text.Lines.{lines}
use sqnr.Core.Bytes.{to_be_bytes, from_be_bytes}
use sqnr.Core.Error.{Error, display}
use sqnr.Core.Key.{PubKey, Encodings, to_base58, from_base58}
use sqnr.Core.Signed.{Crypto}
use sqnr.Effect.{Act, pure, fail, lift, rename, ◌>>=◌, ◌>>◌}
use sqnr.Fs.{Fs}

abbrev pub enc_header : Text
enc_header = codes "SQNR-ED25519-ENCRYPTED-KEY"

abbrev pub plain_header : Text
plain_header = codes "SQNR-ED25519-PRIVATE-KEY"

abbrev pub argon_m_cost : ℕ
argon_m_cost = 65536

abbrev pub argon_t_cost : ℕ
argon_t_cost = 3

abbrev pub argon_p_cost : ℕ
argon_p_cost = 4

-- The crates `argon2` and `chacha20poly1305`.
pub record Vault : Type 1 where
  pub Params : Type 0
  pub Cipher : Type 0
  pub params : ℕ → ℕ → ℕ → ℕ → Result Params Text
  pub hash_password : Params → List ℕ → List ℕ → Result (List ℕ) Text
  pub new_cipher : List ℕ → Result Cipher Text
  pub encrypt : Cipher → List ℕ → List ℕ → Result (List ℕ) Text
  pub decrypt : Cipher → List ℕ → List ℕ → Result (List ℕ) Text

-- What `OsRng` gives to one `generate`: the new seed, the salt and the nonce.
pub record Draws : Type 0 where
  pub seed : List ℕ
  pub salt : List ℕ
  pub nonce : List ℕ

module _ (V : Vault) where
  -- `argon2`, for an output of 32 bytes.
  unfoldable pub argon2 : ℕ → ℕ → ℕ → Text → List ℕ → Result (List ℕ) Text
  argon2 m t p passphrase salt =
      and_then (map_err (V.params m t p 32) (λ e. codes "argon2 params: " ++ e)) λ params.
        map_err (V.hash_password params (as_bytes passphrase) salt)
          (λ e. codes "argon2 hash: " ++ e)

  unfoldable pub cipher_of : List ℕ → Result V.Cipher Text
  cipher_of derived = map_err (V.new_cipher derived) (λ e. codes "cipher init: " ++ e)

-- The blob: costs, salt, nonce, ciphertext.
unfoldable pub blob : List ℕ → List ℕ → List ℕ → List ℕ
blob salt nonce ciphertext =
    to_be_bytes argon_m_cost
    ++ (to_be_bytes argon_t_cost ++ (to_be_bytes argon_p_cost ++ (salt ++ (nonce ++ ciphertext))))

-- `&data[from..from + n]`
abbrev pub slice : ℕ → ℕ → List ℕ → List ℕ
slice from n bs = Base.take n (drop from bs)

module _ (C : Crypto) (E : Encodings) (V : Vault) where
  unfoldable pub encrypt_seed : Draws → List ℕ → Text → Result Text Text
  encrypt_seed d seed passphrase =
      and_then (argon2 V argon_m_cost argon_t_cost argon_p_cost passphrase d.salt) λ derived.
        and_then (cipher_of V derived) λ cipher.
          and_then (map_err (V.encrypt cipher d.nonce seed) (λ e. codes "encrypt: " ++ e))
            λ ciphertext. ok (E.bs58_encode (blob d.salt d.nonce ciphertext))

  unfoldable pub signing_key_of : Text → List ℕ → Result C.SigningKey Text
  signing_key_of message seed =
      if not (length seed == 32) then err message else ok (C.from_seed seed)

  unfoldable pub open_blob : List ℕ → Text → Result C.SigningKey Text
  open_blob bs passphrase =
      and_then
        (argon2 V (from_be_bytes (slice 0 4 bs)) (from_be_bytes (slice 4 4 bs))
          (from_be_bytes (slice 8 4 bs)) passphrase (slice 12 16 bs))
        λ derived. and_then (cipher_of V derived) λ cipher.
          and_then
            (map_err (V.decrypt cipher (slice 28 12 bs) (drop 40 bs))
              (λ e. codes "decryption failed (wrong passphrase?)"))
            (signing_key_of (codes "decrypted seed is not 32 bytes"))

  unfoldable pub decrypt_seed : Text → Text → Result C.SigningKey Text
  decrypt_seed blob_b58 passphrase =
      and_then (map_err (E.bs58_decode blob_b58) (λ e. codes "bad base58 in identity: " ++ e)) λ bs.
        if ltb (length bs) 40
        then err (codes "encrypted key blob too short")
        else open_blob bs passphrase

  unfoldable pub decode_plaintext : Text → Result C.SigningKey Text
  decode_plaintext seed_b58 =
      and_then (map_err (E.bs58_decode seed_b58) (λ e. codes "bad base58 seed: " ++ e))
        (signing_key_of (codes "seed is not 32 bytes"))

-- The three lines of an identity file.
pub record Contents : Type 0 where
  pub header : Text
  pub payload : Text
  pub public : Text

-- What `write_file` writes.
unfoldable pub file_text : Contents → Text
file_text c = c.header ++ (10 ∷ c.payload ++ (10 ∷ c.public ++ (10 ∷ [])))

public_line : Text → Text → List Text → Result Contents Text
public_line header payload [] = err (codes "identity file missing public key")
public_line header payload (public ∷ rest) =
    ok (record { header = header; payload = trim payload; public = trim public })

data_line : Text → List Text → Result Contents Text
unfolding public_line
data_line header [] = err (codes "identity file missing key data")
data_line header (payload ∷ rest) = public_line header payload rest

first_line : List Text → Text
first_line [] = []
first_line (l ∷ ls) = trim l

-- `lines` after one `next`.
after_first : List Text → List Text
after_first [] = []
after_first (l ∷ ls) = ls

-- `read_lines` on the file's text, for a path that prints as `shown`.
unfoldable pub parse_lines : Text → List Text → Result Contents Text
unfolding data_line first_line after_first
parse_lines shown ls =
    let header = first_line ls in
    if not (header =? enc_header) && not (header =? plain_header)
    then err (shown ++ codes ": not an sqnr identity file")
    else data_line header (after_first ls)

module _ (F : Fs) where
  unfoldable pub read_lines : F.PathBuf → Act F.World Contents
  read_lines path = do
    content ←
        rename (λ e. codes "read " ++ (F.display path ++ (codes ": " ++ e))) (F.read_to_string path)
    lift (parse_lines (F.display path) (lines content))

  unfoldable pub write_file : F.PathBuf → Contents → Act F.World (Unit {0})
  write_file path c = do
    rename (λ e. codes "write " ++ (F.display path ++ (codes ": " ++ e)))
        (F.write path (as_bytes (file_text c)))
    rename (λ e. codes "chmod " ++ (F.display path ++ (codes ": " ++ e)))
        (F.set_permissions path 0o600)
