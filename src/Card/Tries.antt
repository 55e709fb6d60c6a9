-- ===== src/Card/Tries.antt =====
-- How often the thread presents a PIN to the card, which blocks it after a few wrong ones.
use sqnr.Base.{
  ℕ, ◌+◌, ◌≤◌, ◌≡◌, ap, inl, inr, Bool-cases, some, none, Result, ok, err, ltb, arith,
  if◌then◌else◌, List, [], ◌∷◌, ◌++◌,
}
use sqnr.Text.Utf8.{Text, len, as_bytes}
use sqnr.Effect.Leaves.{Leaves, leaves_rules}
use sqnr.Effect.Adds.{Adds, adds_rules}
use sqnr.Card
use sqnr.Card.Calls.{open_card-Leaves, read_pubkey-Leaves, sign_msg-Leaves}
use sqnr.Card.Sessions.{held-snd}
use sqnr.Card.Handles.{Call, System, Run, begin, sends, serves, send, serve, idle}

-- A card that counts the PINs that it was shown: only the two calls that verify one add to them.
pub record CountsTries (D : Card.Device) : Type 0 where
  pub tries : D.World → ℕ
  pub cards : Leaves tries D.cards
  pub connect : (b : D.Backend) → Leaves tries (D.connect b)
  pub transaction : (c : D.Connection) → Leaves tries (D.transaction c)
  pub public_key : (c : D.Connection) (kt : Card.KeyType) → Leaves tries (D.public_key c kt)
  pub set_algorithm_attributes :
      (c : D.Connection) (kt : Card.KeyType) (attrs : D.Attributes)
      → Leaves tries (D.set_algorithm_attributes c kt attrs)
  pub generate_key :
      (c : D.Connection) (fpr : Card.KeyMaterial → ℕ → Result (List ℕ) Text) (kt : Card.KeyType)
      → Leaves tries (D.generate_key c fpr kt)
  pub internal_authenticate :
      (c : D.Connection) (msg : List ℕ) → Leaves tries (D.internal_authenticate c msg)
  pub verify_pw1_user : (c : D.Connection) (pin : List ℕ) → Adds tries 1 (D.verify_pw1_user c pin)
  pub verify_pw3 : (c : D.Connection) (pin : List ℕ) → Adds tries 1 (D.verify_pw3 c pin)

-- The PINs that a request may show the card: one for `unlock`, and one for `provision` with an admin
-- PIN of 8 bytes or more.
unfoldable pub shown : Card.Req → ℕ
shown (Card.Req.unlock pin) = 1
shown (Card.Req.provision pin) = if ltb (len pin) 8 then 0 else 1
shown _ = 0

unfoldable pub shown_by : List Call → ℕ
unfolding shown
shown_by [] = 0
shown_by (c ∷ cs) = shown c.req + shown_by cs

shown_by-append : (cs ds : List Call) → shown_by (cs ++ ds) ≡ shown_by cs + shown_by ds
unfolding shown_by
shown_by-append [] ds = omega arith
shown_by-append (c ∷ cs) ds = omega (arith, shown_by-append cs ds)

module _ (D : Card.Device) (K : CountsTries D) where
  provision_checked-Adds :
      (c : D.Connection) (pin : Text) → Adds K.tries 1 (Card.provision_checked D c pin)
  unfolding Card.provision_checked
  provision_checked-Adds c pin =
      search (adds_rules, leaves_rules, K.verify_pw3, K.set_algorithm_attributes, K.generate_key)
        depth 9

  handle-tries :
      (c : D.Connection) (req : Card.Req) (w : D.World)
      → K.tries (Card.handle D c req w).2 ≤ K.tries w + shown req
  unfolding Card.handle Card.finished Card.unlock_user Card.provision_auth shown
  handle-tries c Card.Req.pubkey w =
      omega (arith, (read_pubkey-Leaves D c (K.public_key c Card.authentication)).at w)
  handle-tries c (Card.Req.unlock pin) w = (K.verify_pw1_user c (as_bytes pin)).at w
  handle-tries c (Card.Req.sign msg) w =
      omega (arith, (sign_msg-Leaves D c msg (K.internal_authenticate c msg)).at w)
  handle-tries c (Card.Req.provision pin) w = elim (Bool-cases (ltb (len pin) 8)) [
    | inl short ↦ rw short (omega arith)
    | inr long ↦ rw long ((provision_checked-Adds c pin).at w)
  ]

  started-tries :
      (c : D.Connection) (req : Card.Req) (r : Result (Unit {0}) Text) (w : D.World)
      → K.tries (Card.started D c req (r, w)).2 ≤ K.tries w + shown req
  unfolding Card.started
  started-tries c req (ok u) w = handle-tries c req w
  started-tries c req (err e) w = omega arith

  handle_req-tries :
      (c : D.Connection) (req : Card.Req) (w : D.World)
      → K.tries (Card.held D c (Card.handle_req D c req w)).1.1 ≤ K.tries w + shown req
  unfolding Card.handle_req
  handle_req-tries c req w = omega (
    arith,
    ap K.tries (held-snd D c (Card.handle_req D c req w)),
    started-tries c req (D.transaction c w).0 (D.transaction c w).1,
    (K.transaction c).at w,
  )

  opened-tries :
      (req : Card.Req) (r : Result D.Connection Text) (w : D.World)
      → K.tries (Card.opened D req (r, w)).1.1 ≤ K.tries w + shown req
  unfolding Card.opened
  opened-tries req (ok c) w = handle_req-tries c req w
  opened-tries req (err e) w = omega arith

  turn-tries :
      (req : Card.Req) (t : Card.Thread D)
      → K.tries (Card.turn D req t).1.1 ≤ K.tries t.1 + shown req
  unfolding Card.turn
  turn-tries req (none, w) = omega (
    arith,
    opened-tries req (Card.open_card D w).0 (Card.open_card D w).1,
    (open_card-Leaves D K.cards K.connect).at w,
  )
  turn-tries req (some c, w) = handle_req-tries c req w

  serve-tries :
      (c : Call) (rest : List Call) (s : System D)
      → s.channel ≡ c ∷ rest
      → K.tries (serve D c rest s).thread.1 + shown_by (serve D c rest s).channel
        ≤ K.tries s.thread.1 + shown_by s.channel
  unfolding serve shown_by
  serve-tries c rest s e = omega (arith, turn-tries c.req s.thread, ap shown_by e)

  -- Whatever handles send, whenever the thread gets to serve them, and whatever the card answers: the
  -- card was shown at most one PIN for each `unlock` that was sent, and for each `provision` with an
  -- admin PIN of 8 bytes or more, and those that wait on the channel are still to come.
  pub Run-tries :
      (w : D.World) (sent : List Call) (s : System D)
      → Run D (idle D w) sent s
      → K.tries s.thread.1 + shown_by s.channel ≤ K.tries w + shown_by sent
  unfolding send
  Run-tries w _ _ begin = omega arith
  Run-tries w _ _ (sends {sent = sent} {t = t} c r) = omega (
    arith,
    Run-tries w sent t r,
    shown_by-append sent (c ∷ []),
    shown_by-append t.channel (c ∷ []),
  )
  Run-tries w sent _ (serves {t = t} c rest e r) =
      omega (arith, serve-tries c rest t e, Run-tries w sent t r)
