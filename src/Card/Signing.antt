-- ===== src/Card/Signing.antt =====
-- One PIN, many signatures.
use sqnr.Base.{ℕ, ◌≡◌, refl, some, List, [], ◌∷◌, map, ok, length}
use sqnr.Text.Utf8.{Text, as_bytes}
use sqnr.Card

-- A card that remembers its PIN: once it is unlocked, transactions begin, messages are signed with 64
-- bytes, and neither locks it again.
pub record Remembers (D : Card.Device) : Type 1 where
  pub IsUnlocked : D.Connection → D.World → Type 0
  pub unlocks :
      (c : D.Connection) (pin : List ℕ) (w w1 : D.World)
      → D.verify_pw1_user c pin w ≡ (ok tt, w1)
      → IsUnlocked c w1
  pub begins :
      (c : D.Connection) (w : D.World)
      → IsUnlocked c w
      → (v : D.World) × (D.transaction c w ≡ (ok tt, v)) × IsUnlocked c v
  pub signs :
      (c : D.Connection) (msg : List ℕ) (w : D.World)
      → IsUnlocked c w
      → (s : List ℕ) × (v : D.World) × (D.internal_authenticate c msg w ≡ (ok s, v))
        × (length s ≡ 64)
        × IsUnlocked c v

-- A signature of 64 bytes for each message.
abbrev pub AllSigned : List (List ℕ) → List Card.Reply → Type 0
AllSigned [] [] = Unit
AllSigned (msg ∷ msgs) (Card.signature (ok s) ∷ replies) = (length s ≡ 64) × AllSigned msgs replies
AllSigned _ _ = ⊥

module _ (D : Card.Device) (R : Remembers D) where
  pub turn-unlock :
      (c : D.Connection) (pin : Text) (w w1 w2 : D.World)
      → D.transaction c w ≡ (ok tt, w1)
      → D.verify_pw1_user c (as_bytes pin) w1 ≡ (ok tt, w2)
      → Card.turn D (Card.Req.unlock pin) (some c, w) ≡ (Card.unlocked (ok tt), (some c, w2))
  unfolding Card.turn Card.handle_req Card.started Card.handle Card.finished Card.unlock_user
      Card.held Card.is_comm_failure
  turn-unlock c pin w w1 w2 e1 e2 = rw (e1, e2) refl

  turn-sign :
      (c : D.Connection) (msg : List ℕ) (w : D.World)
      → R.IsUnlocked c w
      → (s : List ℕ) × (v : D.World) × (Card.turn D (Card.Req.sign msg) (some c, w)
          ≡ (Card.signature (ok s), (some c, v)))
        × (length s ≡ 64)
        × R.IsUnlocked c v
  unfolding Card.turn Card.handle_req Card.started Card.handle Card.finished Card.sign_msg
      Card.sized Card.held Card.is_comm_failure
  turn-sign c msg w h =
      let (u, begun, hu) = R.begins c w h in
      let (s, v, signed, size, hv) = R.signs c msg u hu in
      (s, v, rw (begun, signed, size) refl, size, hv)

  pub card_loop-cons :
      (req : Card.Req) (reqs : List Card.Req) (t t1 t2 : Card.Thread D) (reply : Card.Reply)
      (replies : List Card.Reply)
      → Card.turn D req t ≡ (reply, t1)
      → Card.card_loop D reqs t1 ≡ (replies, t2)
      → Card.card_loop D (req ∷ reqs) t ≡ (reply ∷ replies, t2)
  unfolding Card.card_loop
  card_loop-cons req reqs t t1 t2 reply replies e1 e2 = rw e1 (λ i. (reply ∷ (e2 i).0, (e2 i).1))

  pub loop-AllSigned :
      (c : D.Connection) (msgs : List (List ℕ)) (w : D.World)
      → R.IsUnlocked c w
      → (replies : List Card.Reply) × (v : D.World) × (Card.card_loop D
            (map Card.Req.sign msgs)
            (some c, w)
          ≡ (replies, (some c, v)))
        × AllSigned msgs replies
  loop-AllSigned c [] w h = ([], w, unfold Card.card_loop in refl, tt)
  loop-AllSigned c (msg ∷ msgs) w h =
      let (s, v, e, size, hv) = turn-sign c msg w h in
      let (replies, last, rest, all) = loop-AllSigned c msgs v hv in
      (
        Card.signature (ok s) ∷ replies,
        last,
        card_loop-cons (Card.Req.sign msg) (map Card.Req.sign msgs) (some c, w) (some c, v)
            (some c, last) _ replies e rest,
        (size, all),
      )
