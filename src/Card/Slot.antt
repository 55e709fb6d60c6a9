-- ===== src/Card/Slot.antt =====
-- The key in the card's authentication slot, and what can replace it.
use sqnr.Base.{
  ℕ, ◌<◌, ◌≡◌, ◌⊎◌, inl, inr, refl, ◌∙◌, ap, some, none, List, [], ◌∷◌, Result, ok, err, All,
  Bool-cases, lt→ltb, ltb,
}
use sqnr.Text.Utf8.{Text, len, as_bytes}
use sqnr.Effect.Leaves.{Leaves}
use sqnr.Card
use sqnr.Card.Calls.{open_card-Leaves, read_pubkey-Leaves, sign_msg-Leaves, unlock_user-Leaves}
use sqnr.Card.Sessions.{held-snd}

-- A card whose authentication slot only the two calls change that set its algorithm and generate its
-- key.
pub record HasSlot (D : Card.Device) : Type 1 where
  pub Slot : Type 0
  pub slot : D.World → Slot
  pub cards : Leaves slot D.cards
  pub connect : (b : D.Backend) → Leaves slot (D.connect b)
  pub transaction : (c : D.Connection) → Leaves slot (D.transaction c)
  pub public_key : (c : D.Connection) (kt : Card.KeyType) → Leaves slot (D.public_key c kt)
  pub verify_pw1_user : (c : D.Connection) (pin : List ℕ) → Leaves slot (D.verify_pw1_user c pin)
  pub verify_pw3 : (c : D.Connection) (pin : List ℕ) → Leaves slot (D.verify_pw3 c pin)
  pub internal_authenticate :
      (c : D.Connection) (msg : List ℕ) → Leaves slot (D.internal_authenticate c msg)

module _ (D : Card.Device) where
  -- An admin PIN that the card rejects, whenever it is asked.
  abbrev pub IsRejected : Text → Type 0
  IsRejected pin =
      (c : D.Connection) (w : D.World) → (e : Text) × ((D.verify_pw3 c (as_bytes pin) w).0 ≡ err e)

  -- A request other than `provision`, or one with an admin PIN that is too short or rejected.
  abbrev pub IsHarmless : Card.Req → Type 0
  IsHarmless (Card.Req.provision pin) = (len pin < 8) ⊎ IsRejected pin
  IsHarmless _ = Unit

  module _ (K : HasSlot D) where
    provision_checked-rejected :
        (c : D.Connection) (pin : Text) (w : D.World)
        → IsRejected pin
        → K.slot (Card.provision_checked D c pin w).1 ≡ K.slot w
    unfolding Card.provision_checked
    provision_checked-rejected c pin w h =
        let (e, refused) = h c w in rw refused ((K.verify_pw3 c (as_bytes pin)).at w)

    provision_auth-slot :
        (c : D.Connection) (pin : Text) (w : D.World)
        → IsHarmless (Card.Req.provision pin)
        → K.slot (Card.provision_auth D c pin w).1 ≡ K.slot w
    unfolding Card.provision_auth
    provision_auth-slot c pin w (inl short) = rw (lt→ltb (len pin) 8 short) refl
    provision_auth-slot c pin w (inr h) = elim (Bool-cases (ltb (len pin) 8)) [
      | inl short ↦ rw short refl
      | inr long ↦ rw long (provision_checked-rejected c pin w h)
    ]

    handle-slot :
        (c : D.Connection) (req : Card.Req) (w : D.World)
        → IsHarmless req
        → K.slot (Card.handle D c req w).2 ≡ K.slot w
    unfolding Card.handle Card.finished
    handle-slot c Card.Req.pubkey w h =
        (read_pubkey-Leaves D c (K.public_key c Card.authentication)).at w
    handle-slot c (Card.Req.unlock pin) w h =
        (unlock_user-Leaves D c pin (K.verify_pw1_user c (as_bytes pin))).at w
    handle-slot c (Card.Req.sign msg) w h =
        (sign_msg-Leaves D c msg (K.internal_authenticate c msg)).at w
    handle-slot c (Card.Req.provision pin) w h = provision_auth-slot c pin w h

    started-slot :
        (c : D.Connection) (req : Card.Req) (r : Result (Unit {0}) Text) (w : D.World)
        → IsHarmless req
        → K.slot (Card.started D c req (r, w)).2 ≡ K.slot w
    unfolding Card.started
    started-slot c req (ok u) w h = handle-slot c req w h
    started-slot c req (err e) w h = refl

    handle_req-slot :
        (c : D.Connection) (req : Card.Req) (w : D.World)
        → IsHarmless req
        → K.slot (Card.held D c (Card.handle_req D c req w)).1.1 ≡ K.slot w
    unfolding Card.handle_req
    handle_req-slot c req w h =
        ap K.slot (held-snd D c _)
        ∙ started-slot c req (D.transaction c w).0 (D.transaction c w).1 h
        ∙ (K.transaction c).at w

    opened-slot :
        (req : Card.Req) (r : Result D.Connection Text) (w : D.World)
        → IsHarmless req
        → K.slot (Card.opened D req (r, w)).1.1 ≡ K.slot w
    unfolding Card.opened
    opened-slot req (ok c) w h = handle_req-slot c req w h
    opened-slot req (err e) w h = refl

    pub turn-slot :
        (req : Card.Req) (t : Card.Thread D)
        → IsHarmless req
        → K.slot (Card.turn D req t).1.1 ≡ K.slot t.1
    unfolding Card.turn
    turn-slot req (none, w) h =
        opened-slot req (Card.open_card D w).0 (Card.open_card D w).1 h
        ∙ (open_card-Leaves D K.cards K.connect).at w
    turn-slot req (some c, w) h = handle_req-slot c req w h

    -- Whatever requests the thread serves, and whatever the card answers: the key in the slot is as it
    -- was, unless one of them is a provision with an admin PIN of 8 bytes or more that the card does
    -- not always reject.
    card_loop-slot :
        (reqs : List Card.Req) (t : Card.Thread D)
        → All IsHarmless reqs
        → K.slot (Card.card_loop D reqs t).1.1 ≡ K.slot t.1
    unfolding Card.card_loop
    card_loop-slot [] t h = refl
    card_loop-slot (req ∷ reqs) t h =
        card_loop-slot reqs (Card.turn D req t).1 h.1 ∙ turn-slot req t h.0
