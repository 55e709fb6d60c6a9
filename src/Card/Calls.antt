-- ===== src/Card/Calls.antt =====
-- The requests that are one call of the card, and opening it: what the calls leave as it is, they
-- leave too.
use sqnr.Base.{ℕ, List}
use sqnr.Text.Utf8.{Text, as_bytes}
use sqnr.Effect.{lift}
use sqnr.Effect.Leaves.{Leaves, leaves_rules, lift-Leaves, >>=-Leaves}
use sqnr.Card

module _ (D : Card.Device) {S : Type 0} {view : D.World → S} where
  pub open_card-Leaves :
      Leaves view D.cards
      → ((b : D.Backend) → Leaves view (D.connect b))
      → Leaves view (Card.open_card D)
  unfolding Card.open_card
  open_card-Leaves found connects =
      >>=-Leaves D.cards _ found
        λ r. >>=-Leaves (lift (Card.first_card D r)) _ (lift-Leaves _) connects

module _ (D : Card.Device) {S : Type 0} {view : D.World → S} (c : D.Connection) where
  pub read_pubkey-Leaves :
      Leaves view (D.public_key c Card.authentication) → Leaves view (Card.read_pubkey D c)
  unfolding Card.read_pubkey
  read_pubkey-Leaves h = search leaves_rules

  pub sign_msg-Leaves :
      (msg : List ℕ)
      → Leaves view (D.internal_authenticate c msg)
      → Leaves view (Card.sign_msg D c msg)
  unfolding Card.sign_msg
  sign_msg-Leaves msg h = search leaves_rules

  pub unlock_user-Leaves :
      (pin : Text)
      → Leaves view (D.verify_pw1_user c (as_bytes pin))
      → Leaves view (Card.unlock_user D c pin)
  unfolding Card.unlock_user
  unlock_user-Leaves pin h = search leaves_rules
