-- ===== src/Card/Sessions.antt =====
-- When the thread keeps its connection to the card, and when it opens a new one.
use sqnr.Base.{ℕ, Bool, true, false, not, ◌≡◌, refl, List, ◌++◌, ok, err, some, none, if◌then◌else◌}
use sqnr.Text.Utf8.{Text, codes, as_bytes}
use sqnr.Text.Search.{contains, to_ascii_lowercase}
use sqnr.Card

-- The words that a method puts in front of a card's error hide no needle and add none.
comm_failure_unlock :
    (e : Text)
    → Card.is_comm_failure {A = Unit {0}} (err (codes "PIN rejected: " ++ e))
      ≡ Card.is_comm_failure {A = Unit {0}} (err e)
unfolding Card.is_comm_failure Card.any_needle contains to_ascii_lowercase
comm_failure_unlock e = refl

comm_failure_sign :
    (e : Text)
    → Card.is_comm_failure {A = List ℕ} (err (codes "sign failed: " ++ e))
      ≡ Card.is_comm_failure {A = List ℕ} (err e)
unfolding Card.is_comm_failure Card.any_needle contains to_ascii_lowercase
comm_failure_sign e = refl

module _ (D : Card.Device) where
  -- Whether the session is kept or not, the reply and the card are those of the request.
  pub held-fst : (c : D.Connection) (h : Card.Handled D) → (Card.held D c h).0 ≡ h.0
  unfolding Card.held
  held-fst c (reply, true, w) = refl
  held-fst c (reply, false, w) = refl

  pub held-snd : (c : D.Connection) (h : Card.Handled D) → (Card.held D c h).1.1 ≡ h.2
  unfolding Card.held
  held-snd c (reply, true, w) = refl
  held-snd c (reply, false, w) = refl

  held-pair :
      (c : D.Connection) (reply : Card.Reply) (gone : Bool) (w : D.World)
      → Card.held D c (reply, not gone, w) ≡ (reply, (if gone then none else some c, w))
  unfolding Card.held
  held-pair c reply true w = refl
  held-pair c reply false w = refl

  -- A PIN that the card rejects in a held session is reported, and the connection is kept unless the
  -- rejection itself says that the card is gone.
  turn-unlock_rejected :
      (c : D.Connection) (pin e : Text) (w w1 w2 : D.World)
      → D.transaction c w ≡ (ok tt, w1)
      → D.verify_pw1_user c (as_bytes pin) w1 ≡ (err e, w2)
      → Card.turn D (Card.Req.unlock pin) (some c, w) ≡ (
        Card.unlocked (err (codes "PIN rejected: " ++ e)),
        (if Card.is_comm_failure {A = Unit {0}} (err e) then none else some c, w2),
      )
  unfolding Card.turn Card.handle_req Card.started Card.handle Card.finished Card.unlock_user
  turn-unlock_rejected c pin e w w1 w2 h k = rw (h, k, comm_failure_unlock e) (held-pair c _ _ w2)

  -- Where the card fails to sign in a held session, the failure is the reply, and the connection is
  -- kept unless the failure itself says that the card is gone.
  turn-sign_failed :
      (c : D.Connection) (msg : List ℕ) (e : Text) (w w1 w2 : D.World)
      → D.transaction c w ≡ (ok tt, w1)
      → D.internal_authenticate c msg w1 ≡ (err e, w2)
      → Card.turn D (Card.Req.sign msg) (some c, w) ≡ (
        Card.signature (err (codes "sign failed: " ++ e)),
        (if Card.is_comm_failure {A = List ℕ} (err e) then none else some c, w2),
      )
  unfolding Card.turn Card.handle_req Card.started Card.handle Card.finished Card.sign_msg
  turn-sign_failed c msg e w w1 w2 h k = rw (h, k, comm_failure_sign e) (held-pair c _ _ w2)
