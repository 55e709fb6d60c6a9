-- ===== src/Card/Provision.antt =====
-- `provision` checks the PIN's length before it touches the card.
use sqnr.Base.{ℕ, zero, suc, ◌<◌, ◌≡◌, refl, true, false, List, err, lt→ltb, arith}
use sqnr.Text.Utf8.{Text, len}
use sqnr.Text.Search.{contains, to_ascii_lowercase}
use sqnr.Card

needleless : (n : ℕ) → n < 8 → Card.is_comm_failure {A = List ℕ} (err (Card.short_pin n)) ≡ false
unfolding Card.is_comm_failure Card.any_needle contains to_ascii_lowercase Card.short_pin
needleless zero h = refl
needleless (suc zero) h = refl
needleless (suc (suc zero)) h = refl
needleless (suc (suc (suc zero))) h = refl
needleless (suc (suc (suc (suc zero)))) h = refl
needleless (suc (suc (suc (suc (suc zero))))) h = refl
needleless (suc (suc (suc (suc (suc (suc zero)))))) h = refl
needleless (suc (suc (suc (suc (suc (suc (suc zero))))))) h = refl
needleless (suc (suc (suc (suc (suc (suc (suc (suc n)))))))) h = absurd (omega arith)

module _ (D : Card.Device) where
  -- An admin PIN of fewer than 8 bytes is refused with the card as it was: no PIN is presented, so no
  -- retry counter is spent and nothing is overwritten, and the session is kept.
  handle-provision_short :
      (c : D.Connection) (pin : Text) (w : D.World)
      → len pin < 8
      → Card.handle D c (Card.Req.provision pin) w
        ≡ (Card.provisioned (err (Card.short_pin (len pin))), true, w)
  unfolding Card.handle Card.provision_auth
  handle-provision_short c pin w h = rw (lt→ltb (len pin) 8 h, needleless (len pin) h)
