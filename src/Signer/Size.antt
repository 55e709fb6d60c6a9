-- ===== src/Signer/Size.antt =====
-- The size of a signature, whichever backend it comes from.
use sqnr.Base.{ℕ, ◌≡◌, sym, ◌∙◌, ap, List, ok, err, ok-injective, length}
use sqnr.Core.Signed.{Crypto, software_signer}
use sqnr.Core.Signed.Verify
use sqnr.Card
use sqnr.Card.Answers.{Answers, turn-Answers}
use sqnr.Card.Methods
use sqnr.Signer.{Backend, Inner, soft, yubi, inner_sign, sign}

size_of_signature :
    (msg : List ℕ) (reply : Card.Reply) (bs : List ℕ)
    → Answers (Card.Req.sign msg) reply
    → Methods.of_signature reply ≡ ok bs
    → length bs ≡ 64
unfolding Methods.of_signature
size_of_signature msg (Card.signature (ok s)) bs h e = ap length (sym (ok-injective e)) ∙ h
size_of_signature msg (Card.signature (err x)) bs h e = cc
size_of_signature msg (Card.key r) bs h e = absurd h
size_of_signature msg (Card.unlocked r) bs h e = absurd h
size_of_signature msg (Card.provisioned r) bs h e = absurd h

module _ (C : Crypto) (L : Verify.IsLawful C) (D : Card.Device) where
  inner_sign-size :
      (i : Inner C) (msg bs : List ℕ) (t : Card.Thread D)
      → (inner_sign C D i msg t).0 ≡ ok bs
      → length bs ≡ 64
  unfolding inner_sign Methods.sign software_signer
  inner_sign-size (soft k) msg bs t e = ap length (sym (ok-injective e)) ∙ (L.sign_size k msg).size
  inner_sign-size yubi msg bs t e =
      size_of_signature msg _ bs (turn-Answers D (Card.Req.sign msg) t) e

  -- A signature has 64 bytes, whether a software key made it or a card, whatever the card returns.
  sign-size :
      (b : Backend C) (msg bs : List ℕ) (t : Card.Thread D)
      → (sign C D b msg t).0 ≡ ok bs
      → length bs ≡ 64
  unfolding sign
  sign-size b msg bs t e = inner_sign-size b.inner msg bs t e
