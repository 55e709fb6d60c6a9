-- ===== src/Card/Kept.antt =====
-- How long the thread keeps a session.
use sqnr.Base.{
  Bool-cases, inl, inr, ltb, ℕ, ◌≡◌, refl, ◌∙◌, false, some, List, [], ◌∷◌, Result, ok, err, All,
}
use sqnr.Text.Utf8.{Text, codes, len, as_bytes}
use sqnr.Text.Search.{contains, to_ascii_lowercase}
use sqnr.Effect.Leaves.{Leaves, leaves_rules}
use sqnr.Card
use sqnr.Card.Sessions.{held-fst}
use sqnr.Card.Calls.{read_pubkey-Leaves, sign_msg-Leaves, unlock_user-Leaves}

-- A card that is there once it is connected, with the number of its connections: only looking for
-- cards and connecting can change that number.
pub record Stays (D : Card.Device) : Type 1 where
  pub Count : Type 0
  pub count : D.World → Count
  pub begins : (c : D.Connection) (w : D.World) → (D.transaction c w).0 ≡ ok tt
  pub transaction : (c : D.Connection) → Leaves count (D.transaction c)
  pub public_key : (c : D.Connection) (kt : Card.KeyType) → Leaves count (D.public_key c kt)
  pub verify_pw1_user : (c : D.Connection) (pin : List ℕ) → Leaves count (D.verify_pw1_user c pin)
  pub verify_pw3 : (c : D.Connection) (pin : List ℕ) → Leaves count (D.verify_pw3 c pin)
  pub set_algorithm_attributes :
      (c : D.Connection) (kt : Card.KeyType) (attrs : D.Attributes)
      → Leaves count (D.set_algorithm_attributes c kt attrs)
  pub generate_key :
      (c : D.Connection) (fpr : Card.KeyMaterial → ℕ → Result (List ℕ) Text) (kt : Card.KeyType)
      → Leaves count (D.generate_key c fpr kt)
  pub internal_authenticate :
      (c : D.Connection) (msg : List ℕ) → Leaves count (D.internal_authenticate c msg)

-- The words for a card that is gone, in small letters.
abbrev pub words : List Text
words =
    codes "removed"
    ∷ codes "reset"
    ∷ codes "transmit"
    ∷ codes "no smart card"
    ∷ codes "not transacted"
    ∷ codes "disconnected"
    ∷ []

-- A result, unless it is an error that has one of these words in it, in letters of either case.
abbrev pub IsSilent : {A : Type 0} → Result A Text → Type 0
IsSilent (ok a) = Unit
IsSilent (err e) = All (λ word. contains (to_ascii_lowercase e) word ≡ false) words

abbrev pub IsPresent : Card.Reply → Type 0
IsPresent (Card.key r) = IsSilent r
IsPresent (Card.unlocked r) = IsSilent r
IsPresent (Card.signature r) = IsSilent r
IsPresent (Card.provisioned r) = IsSilent r

is_comm_failure-IsSilent :
    {A : Type 0} (r : Result A Text) → IsSilent r → Card.is_comm_failure r ≡ false
unfolding Card.is_comm_failure Card.any_needle
is_comm_failure-IsSilent (ok a) h = refl
is_comm_failure-IsSilent (err e) (h0, (h1, (h2, (h3, (h4, (h5, h6)))))) =
    rw (h0, h1, h2, h3, h4, h5) refl

module _ (D : Card.Device) (S : Stays D) where
  -- The session is held, and no card was connected since.
  abbrev pub IsKept : D.Connection → D.World → Card.Thread D → Type 0
  IsKept c w t = (v : D.World) × (t ≡ (some c, v)) × (S.count v ≡ S.count w)

  provision_checked-Leaves :
      (c : D.Connection) (pin : Text) → Leaves S.count (Card.provision_checked D c pin)
  unfolding Card.provision_checked
  provision_checked-Leaves c pin =
      search (leaves_rules, S.verify_pw3, S.set_algorithm_attributes, S.generate_key) depth 9

  provision_auth-count :
      (c : D.Connection) (pin : Text) (w : D.World)
      → S.count (Card.provision_auth D c pin w).1 ≡ S.count w
  unfolding Card.provision_auth
  provision_auth-count c pin w = elim (Bool-cases (ltb (len pin) 8)) [
    | inl short ↦ rw short refl
    | inr long ↦ rw long ((provision_checked-Leaves c pin).at w)
  ]

  handle-count :
      (c : D.Connection) (req : Card.Req) (w : D.World)
      → S.count (Card.handle D c req w).2 ≡ S.count w
  unfolding Card.handle Card.finished
  handle-count c Card.Req.pubkey w =
      (read_pubkey-Leaves D c (S.public_key c Card.authentication)).at w
  handle-count c (Card.Req.unlock pin) w =
      (unlock_user-Leaves D c pin (S.verify_pw1_user c (as_bytes pin))).at w
  handle-count c (Card.Req.sign msg) w =
      (sign_msg-Leaves D c msg (S.internal_authenticate c msg)).at w
  handle-count c (Card.Req.provision pin) w = provision_auth-count c pin w

  finished-held :
      {A : Type 0} (c : D.Connection) (reply : Result A Text → Card.Reply) (r : Result A Text)
      (w : D.World)
      → IsSilent r
      → (Card.held D c (Card.finished D reply (r, w))).1 ≡ (some c, w)
  unfolding Card.finished Card.held
  finished-held c reply r w h = rw (is_comm_failure-IsSilent r h) refl

  handle-held :
      (c : D.Connection) (req : Card.Req) (w : D.World)
      → IsPresent (Card.handle D c req w).0
      → (Card.held D c (Card.handle D c req w)).1 ≡ (some c, (Card.handle D c req w).2)
  unfolding Card.handle Card.finished
  handle-held c Card.Req.pubkey w h = finished-held c Card.key _ _ h
  handle-held c (Card.Req.unlock pin) w h = finished-held c Card.unlocked _ _ h
  handle-held c (Card.Req.sign msg) w h = finished-held c Card.signature _ _ h
  handle-held c (Card.Req.provision pin) w h = finished-held c Card.provisioned _ _ h

  started-IsKept :
      (c : D.Connection) (req : Card.Req) (r : Result (Unit {0}) Text) (w : D.World)
      → r ≡ ok tt
      → IsPresent (Card.held D c (Card.started D c req (r, w))).0
      → IsKept c w (Card.held D c (Card.started D c req (r, w))).1
  unfolding Card.started
  started-IsKept c req (ok u) w begun h = (
    (Card.handle D c req w).2,
    handle-held c req w (rw (held-fst D c _) at h),
    handle-count c req w,
  )
  started-IsKept c req (err e) w begun h = cc

  turn-IsKept :
      (c : D.Connection) (req : Card.Req) (w : D.World)
      → IsPresent (Card.turn D req (some c, w)).0
      → IsKept c w (Card.turn D req (some c, w)).1
  unfolding Card.turn Card.handle_req
  turn-IsKept c req w h =
      let (v, same, left) =
        started-IsKept c req (D.transaction c w).0 (D.transaction c w).1 (S.begins c w) h in
      (v, same, left ∙ (S.transaction c).at w)

  -- From a session that the thread holds, with a card that stays, whatever requests it serves: as long
  -- as no reply is an error with one of the six words for a card that is gone in it, be it that a PIN
  -- was rejected or a key was not made, the thread holds that session at the end, and no card was
  -- connected in between.
  pub card_loop-IsKept :
      (c : D.Connection) (reqs : List Card.Req) (w : D.World)
      → All IsPresent (Card.card_loop D reqs (some c, w)).0
      → IsKept c w (Card.card_loop D reqs (some c, w)).1
  unfolding Card.card_loop
  card_loop-IsKept c [] w h = (w, refl, refl)
  card_loop-IsKept c (req ∷ reqs) w h =
      let (v, held, left) = turn-IsKept c req w h.0 in
      let (u, last, same) = card_loop-IsKept c reqs v (rw held at h.1) in
      (u, rw held last, same ∙ left)
