-- ===== src/Card/Answers.antt =====
-- Every request gets its reply.
use sqnr.Base.{
  ℕ, ◌≡◌, refl, List, [], ◌∷◌, Result, ok, err, length, none, some, arith, ltb, Bool-cases, inl,
  inr,
}
use sqnr.Text.Utf8.{Text, len}
use sqnr.Effect.{Act, after}
use sqnr.Card
use sqnr.Card.Sessions.{held-fst}

-- The kind of a reply fits its request, and a key has 32 bytes, a signature 64.
abbrev pub Sized : ℕ → Result (List ℕ) Text → Type 0
Sized n (ok bs) = length bs ≡ n
Sized n (err e) = Unit

abbrev pub Answers : Card.Req → Card.Reply → Type 0
Answers Card.Req.pubkey (Card.key r) = Sized 32 r
Answers (Card.Req.unlock pin) (Card.unlocked r) = Unit
Answers (Card.Req.sign msg) (Card.signature r) = Sized 64 r
Answers (Card.Req.provision pin) (Card.provisioned r) = Sized 32 r
Answers _ _ = ⊥

-- One reply to each request, in their order.
abbrev pub AllAnswered : List Card.Req → List Card.Reply → Type 0
AllAnswered [] [] = Unit
AllAnswered (req ∷ reqs) (reply ∷ replies) = Answers req reply × AllAnswered reqs replies
AllAnswered _ _ = ⊥

sized-Sized : (n : ℕ) (message : Text) (bs : List ℕ) → Sized n (Card.sized n message bs)
unfolding Card.sized
sized-Sized n message bs = ground arith

reply_err-Answers : (req : Card.Req) (e : Text) → Answers req (Card.reply_err req e)
unfolding Card.reply_err
reply_err-Answers Card.Req.pubkey e = tt
reply_err-Answers (Card.Req.unlock pin) e = tt
reply_err-Answers (Card.Req.sign msg) e = tt
reply_err-Answers (Card.Req.provision pin) e = tt

ok-Sized :
    (n : ℕ) (r : Result (List ℕ) Text) → ((bs : List ℕ) → r ≡ ok bs → length bs ≡ n) → Sized n r
ok-Sized n (ok bs) h = h bs refl
ok-Sized n (err e) h = tt

after-Sized :
    {W A : Type 0} (n : ℕ) (r : Result A Text) (w : W) (f : A → Act W (List ℕ))
    → ((a : A) (v : W) → Sized n (f a v).0)
    → Sized n (after r w f).0
after-Sized n (ok a) w f h = h a w
after-Sized n (err e) w f h = tt

module _ (D : Card.Device) where
  auth_key-Sized : (m : Card.KeyMaterial) → Sized 32 (Card.auth_key D m)
  unfolding Card.auth_key
  auth_key-Sized (Card.ecc point) = sized-Sized 32 _ point
  auth_key-Sized Card.rsa = tt

  generated_key-Sized : (m : Card.KeyMaterial) → Sized 32 (Card.generated_key D m)
  unfolding Card.generated_key
  generated_key-Sized (Card.ecc point) = sized-Sized 32 _ point
  generated_key-Sized Card.rsa = tt

  read_pubkey-Sized : (c : D.Connection) (w : D.World) → Sized 32 (Card.read_pubkey D c w).0
  unfolding Card.read_pubkey
  read_pubkey-Sized c w = after-Sized 32 _ _ _ λ m v. auth_key-Sized m

  sign_msg-Sized :
      (c : D.Connection) (msg : List ℕ) (w : D.World) → Sized 64 (Card.sign_msg D c msg w).0
  unfolding Card.sign_msg
  sign_msg-Sized c msg w = after-Sized 64 _ _ _ λ s v. sized-Sized 64 _ s

  provision_checked-size :
      (c : D.Connection) (pin : Text) (w : D.World) (bs : List ℕ)
      → (Card.provision_checked D c pin w).0 ≡ ok bs
      → length bs ≡ 32
  unfolding Card.provision_checked Card.generated_key Card.sized
  provision_checked-size c pin w bs e = ground arith

  provision_checked-Sized :
      (c : D.Connection) (pin : Text) (w : D.World) → Sized 32 (Card.provision_checked D c pin w).0
  provision_checked-Sized c pin w = ok-Sized 32 _ (provision_checked-size c pin w)

  provision_auth-Sized :
      (c : D.Connection) (pin : Text) (w : D.World) → Sized 32 (Card.provision_auth D c pin w).0
  unfolding Card.provision_auth
  provision_auth-Sized c pin w = elim (Bool-cases (ltb (len pin) 8)) [
    | inl short ↦ rw short tt
    | inr long ↦ rw long (provision_checked-Sized c pin w)
  ]

  handle-Answers :
      (c : D.Connection) (req : Card.Req) (w : D.World) → Answers req (Card.handle D c req w).0
  unfolding Card.handle
  handle-Answers c Card.Req.pubkey w = read_pubkey-Sized c w
  handle-Answers c (Card.Req.unlock pin) w = tt
  handle-Answers c (Card.Req.sign msg) w = sign_msg-Sized c msg w
  handle-Answers c (Card.Req.provision pin) w = provision_auth-Sized c pin w

  started-Answers :
      (c : D.Connection) (req : Card.Req) (r : Result (Unit {0}) Text) (w : D.World)
      → Answers req (Card.started D c req (r, w)).0
  unfolding Card.started
  started-Answers c req (ok u) w = handle-Answers c req w
  started-Answers c req (err e) w = reply_err-Answers req e

  handle_req-Answers :
      (c : D.Connection) (req : Card.Req) (w : D.World)
      → Answers req (Card.held D c (Card.handle_req D c req w)).0
  handle_req-Answers c req w =
      rw (held-fst D c (Card.handle_req D c req w)) (
        unfold Card.handle_req in started-Answers c req (D.transaction c w).0 (D.transaction c w).1)

  opened-Answers :
      (req : Card.Req) (r : Result D.Connection Text) (w : D.World)
      → Answers req (Card.opened D req (r, w)).0
  unfolding Card.opened
  opened-Answers req (ok c) w = handle_req-Answers c req w
  opened-Answers req (err e) w = reply_err-Answers req e

  -- Each reply fits its request.
  pub turn-Answers : (req : Card.Req) (t : Card.Thread D) → Answers req (Card.turn D req t).0
  unfolding Card.turn
  turn-Answers req (none, w) = opened-Answers req (Card.open_card D w).0 (Card.open_card D w).1
  turn-Answers req (some c, w) = handle_req-Answers c req w

  -- Whatever the card does, the thread replies to every request, in order and in kind; a key that
  -- it hands out has 32 bytes and a signature 64.
  pub card_loop-AllAnswered :
      (reqs : List Card.Req) (t : Card.Thread D) → AllAnswered reqs (Card.card_loop D reqs t).0
  unfolding Card.card_loop
  card_loop-AllAnswered [] t = tt
  card_loop-AllAnswered (req ∷ reqs) t =
      (turn-Answers req t, card_loop-AllAnswered reqs (Card.turn D req t).1)
