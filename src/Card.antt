-- ===== src/Card.antt =====
-- crates/sqnr/src/card.rs: the thread that owns the YubiKey.
pub mod Material
pub mod Methods
pub mod Sessions
pub mod Answers
pub mod Loops
pub mod Signing
pub mod Handles
pub mod Calls
pub mod Slot
pub mod Tries
pub mod Kept
pub mod Keys
pub mod Provision
pub mod Fingerprint
use sqnr.Base.{
  ℕ, Option, none, some, Bool, true, false, ◌||◌, List, [], ◌∷◌, ◌++◌, Result, ok, err, map_err,
  and_then, length, ltb, ◌==◌, not, if◌then◌else◌,
}
use sqnr.Text.Utf8.{Text, codes, as_bytes, len}
use sqnr.Text.Format.{show}
use sqnr.Text.Search.{to_ascii_lowercase, contains}
pub use sqnr.Card.Material.{
  KeyMaterial, ecc, rsa, KeyType, signing, decryption, authentication, attestation, EccType, ecdh,
  ecdsa, eddsa, Curve, ed25519, cv25519,
}
use sqnr.Card.Fingerprint.{ed25519_fingerprint}
use sqnr.Effect.{Act, pure, fail, lift, rename, after, ◌>>=◌, ◌>>◌}

-- The crates `card_backend_pcsc` and `openpgp_card`, with the card and its readers as the world.
-- Errors are known by their messages. `generate_key` gets the function that makes the fingerprint,
-- whose SHA-1 is `sha1`.
pub record Device : Type 1 where
  pub World : Type 0
  pub Backend : Type 0
  pub Connection : Type 0
  pub Attributes : Type 0
  pub cards : Act World (List (Result Backend Text))
  pub connect : Backend → Act World Connection
  pub transaction : Connection → Act World (Unit {0})
  pub public_key : Connection → KeyType → Act World KeyMaterial
  pub verify_pw1_user : Connection → List ℕ → Act World (Unit {0})
  pub verify_pw3 : Connection → List ℕ → Act World (Unit {0})
  pub ecc_attributes : EccType → Curve → Option (List ℕ) → Attributes
  pub set_algorithm_attributes : Connection → KeyType → Attributes → Act World (Unit {0})
  pub sha1 : List ℕ → List ℕ
  pub generate_key :
      Connection → (KeyMaterial → ℕ → Result (List ℕ) Text) → KeyType → Act World KeyMaterial
  pub internal_authenticate : Connection → List ℕ → Act World (List ℕ)

-- `Req`, but for its reply channel.
pub data Req : Type 0 where
  pubkey : Req
  unlock : Text → Req
  sign : List ℕ → Req
  provision : Text → Req

-- What is sent on a reply channel.
pub data Reply : Type 0 where
  key : Result (List ℕ) Text → Reply
  unlocked : Result (Unit {0}) Text → Reply
  signature : Result (List ℕ) Text → Reply
  provisioned : Result (List ℕ) Text → Reply

unfoldable pub sized : ℕ → Text → List ℕ → Result (List ℕ) Text
sized n message bs = if length bs == n then ok bs else err message

abbrev pub needles : List Text
needles =
    codes "removed"
    ∷ codes "reset"
    ∷ codes "transmit"
    ∷ codes "no smart card"
    ∷ codes "not transacted"
    ∷ codes "disconnected"
    ∷ []

unfoldable pub any_needle : Text → List Text → Bool
any_needle e [] = false
any_needle e (n ∷ ns) = contains e n || any_needle e ns

-- Whether an error looks like the card is gone.
unfoldable pub is_comm_failure : {A : Type 0} → Result A Text → Bool
is_comm_failure (ok a) = false
is_comm_failure (err e) = any_needle (to_ascii_lowercase e) needles

unfoldable pub reply_err : Req → Text → Reply
reply_err pubkey e = key (err e)
reply_err (unlock pin) e = unlocked (err e)
reply_err (sign msg) e = signature (err e)
reply_err (provision pin) e = provisioned (err e)

-- What is said of an admin PIN that is too short.
unfoldable pub short_pin : ℕ → Text
unfolding show
short_pin n =
    codes "admin PIN is "
    ++ (show n
        ++ codes
            " characters; PW3 needs at least 8. That is the ADMIN PIN (default 12345678), not the 6-digit user PIN.")

module _ (D : Device) where
  unfoldable pub first_card : List (Result D.Backend Text) → Result D.Backend Text
  first_card [] = err (codes "no OpenPGP card found (is the YubiKey inserted?)")
  first_card (c ∷ cs) = c

  -- `open`
  unfoldable pub open_card : Act D.World D.Connection
  unfolding first_card
  open_card = do found ← D.cards; backend ← lift (first_card found); D.connect backend

  unfoldable pub auth_key : KeyMaterial → Result (List ℕ) Text
  auth_key (ecc point) = sized 32 (codes "auth key is not a 32-byte Ed25519 point") point
  auth_key rsa = err (codes "auth key is RSA, not Ed25519")

  unfoldable pub read_pubkey : D.Connection → Act D.World (List ℕ)
  unfolding auth_key
  read_pubkey c = do
    material ←
        rename
          (λ e.
            codes "no Ed25519 auth key ("
            ++ (e ++ codes "); generate one with `sqnr --yubikey provision`"))
          (D.public_key c authentication)
    lift (auth_key material)

  unfoldable pub generated_key : KeyMaterial → Result (List ℕ) Text
  generated_key (ecc point) = sized 32 (codes "generated key is not a 32-byte Ed25519 point") point
  generated_key rsa = err (codes "card generated a non-ECC key")

  -- `provision_auth` behind its check of the PIN's length.
  unfoldable pub provision_checked : D.Connection → Text → Act D.World (List ℕ)
  provision_checked c pin = do
    rename (λ e. codes "admin PIN rejected: " ++ e) (D.verify_pw3 c (as_bytes pin))
    rename (λ e. codes "could not set the slot to Ed25519: " ++ e)
        (D.set_algorithm_attributes c authentication (D.ecc_attributes eddsa ed25519 none))
    material ←
        rename (λ e. codes "key generation failed: " ++ e)
          (D.generate_key c (ed25519_fingerprint D.sha1) authentication)
    lift (generated_key material)

  unfoldable pub provision_auth : D.Connection → Text → Act D.World (List ℕ)
  provision_auth c pin w =
      if ltb (len pin) 8 then fail (short_pin (len pin)) w else provision_checked c pin w

  unfoldable pub sign_msg : D.Connection → List ℕ → Act D.World (List ℕ)
  sign_msg c msg = do
    s ← rename (λ e. codes "sign failed: " ++ e) (D.internal_authenticate c msg)
    lift (sized 64 (codes "card returned a non-64-byte signature") s)

  unfoldable pub unlock_user : D.Connection → Text → Act D.World (Unit {0})
  unlock_user c pin = rename (λ e. codes "PIN rejected: " ++ e) (D.verify_pw1_user c (as_bytes pin))

  -- A reply, whether the session is kept, and the card after it.
  abbrev pub Handled : Type 0
  Handled = Reply × Bool × D.World

  unfoldable pub finished :
      {A : Type 0} → (Result A Text → Reply) → Result A Text × D.World → Handled
  finished reply (r, w) = (reply r, not (is_comm_failure r), w)

  unfoldable pub handle : D.Connection → Req → D.World → Handled
  unfolding finished
  handle c pubkey w = finished key (read_pubkey c w)
  handle c (unlock pin) w = finished unlocked (unlock_user c pin w)
  handle c (provision pin) w = finished provisioned (provision_auth c pin w)
  handle c (sign msg) w = finished signature (sign_msg c msg w)

  unfoldable pub started : D.Connection → Req → Result (Unit {0}) Text × D.World → Handled
  started c req (ok _, w) = handle c req w
  started c req (err e, w) = (reply_err req e, false, w)

  unfoldable pub handle_req : D.Connection → Req → D.World → Handled
  unfolding started
  handle_req c req w = started c req (D.transaction c w)

  -- The card thread between two requests: the connection that is held, if any, and the card.
  abbrev pub Thread : Type 0
  Thread = Option D.Connection × D.World

  unfoldable pub held : D.Connection → Handled → Reply × Thread
  held c (reply, true, w) = (reply, (some c, w))
  held c (reply, false, w) = (reply, (none, w))

  unfoldable pub opened : Req → Result D.Connection Text × D.World → Reply × Thread
  unfolding held
  opened req (ok c, w) = held c (handle_req c req w)
  opened req (err e, w) = (reply_err req e, (none, w))

  -- One round of `card_loop`: the outer loop where no connection is held, else the inner one.
  unfoldable pub turn : Req → Thread → Reply × Thread
  unfolding opened held
  turn req (none, w) = opened req (open_card w)
  turn req (some c, w) = held c (handle_req c req w)

  -- The requests that arrive until the channel is closed, and the replies that are sent.
  unfoldable pub card_loop : List Req → Thread → List Reply × Thread
  card_loop [] t = ([], t)
  card_loop (req ∷ reqs) t =
      let (reply, t') = turn req t in
      let (replies, t'') = card_loop reqs t' in (reply ∷ replies, t'')
