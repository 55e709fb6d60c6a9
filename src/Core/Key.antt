-- ===== src/Core/Key.antt =====
-- crates/sqnr-core/src/key.rs: `PubKey` and the forms it is read from and written in.
pub mod Laws
pub mod Forms
use sqnr.Base
use sqnr.Base.{
  ℕ, ◌+◌, ◌≤◌, ◌≡◌, Bool, ◌&&◌, ◌||◌, List, ◌++◌, Result, ok, err, map_err, and_then, leb, ◌==◌,
  not, all, if◌then◌else◌, length,
}
use sqnr.Text.Utf8.{Text, codes, len}
use sqnr.Text.Format.{show}
use sqnr.Text.Trim.{trim}
use sqnr.Core.Error.{Error, key}

-- The bytes of an Ed25519 public key, 32 of them.
pub record PubKey : Type 0 where
  pub raw : List ℕ

-- The crates `bs58` and `hex`: encoding, and decoding to bytes or a message.
pub record Encodings : Type 0 where
  pub bs58_encode : List ℕ → Text
  pub bs58_decode : Text → Result (List ℕ) Text
  pub hex_encode : List ℕ → Text
  pub hex_decode : Text → Result (List ℕ) Text

-- `char::is_ascii_hexdigit`
unfoldable pub is_ascii_hexdigit : ℕ → Bool
is_ascii_hexdigit c =
    (leb b'0' c && leb c b'9') || ((leb b'a' c && leb c b'f') || (leb b'A' c && leb c b'F'))

unfoldable pub from_slice : List ℕ → Result PubKey Error
from_slice raw =
    if not (length raw == 32)
    then err (key (codes "public key must be 32 bytes, got " ++ show (length raw)))
    else ok (record { raw = raw })

-- The test that chooses between the two forms.
unfoldable pub looks_hex : Text → Bool
unfolding is_ascii_hexdigit all len
looks_hex s = (len s == 64) && all is_ascii_hexdigit s

module _ (E : Encodings) where
  unfoldable pub to_base58 : PubKey → Text
  to_base58 k = E.bs58_encode k.raw

  -- `Display`
  abbrev pub display_key : PubKey → Text
  display_key k = to_base58 k

  -- The first 8 characters, for logs.
  unfoldable pub short : PubKey → Text
  unfolding to_base58
  short k = Base.take 8 (to_base58 k)

  unfoldable pub from_base58 : Text → Result PubKey Error
  unfolding from_slice
  from_base58 s =
      and_then (map_err (E.bs58_decode s) (λ e. key (codes "bad base58: " ++ e))) from_slice

  unfoldable pub from_hex : Text → Result PubKey Error
  unfolding from_slice
  from_hex s = and_then (map_err (E.hex_decode s) (λ e. key (codes "bad hex: " ++ e))) from_slice

  unfoldable pub from_str : Text → Result PubKey Error
  unfolding from_hex from_base58 looks_hex trim
  from_str s = let t = trim s in if looks_hex t then from_hex t else from_base58 t
