-- ===== src/Card/Keys.antt =====
-- The key that `provision` makes and the key that `pubkey` reads.
use sqnr.Base.{
  ℕ, ◌≡◌, sym, ◌∙◌, ap, inl, inr, some, none, List, Result, ok, err, Bool-cases, ltb, arith,
}
use sqnr.Text.Utf8.{Text, len, as_bytes}
use sqnr.Effect.{after, rename, lift, ◌>>=◌, >>=-eq-ok, rename-eq-ok}
use sqnr.Card
use sqnr.Card.Sessions.{held-fst, held-snd}
use sqnr.Card.Methods
use sqnr.Card.Methods.{of_key, of_provisioned}

-- A card that reports the public half of the key that it has in a slot, which neither looking for cards, nor
-- connecting, nor beginning a transaction changes.
pub record ShowsKey (D : Card.Device) : Type 1 where
  pub Has : Card.KeyType → List ℕ → D.World → Type 0
  pub reports :
      (c : D.Connection) (kt : Card.KeyType) (point : List ℕ) (m : Card.KeyMaterial)
      (w w' : D.World)
      → Has kt point w
      → D.public_key c kt w ≡ (ok m, w')
      → m ≡ Card.ecc point
  pub cards :
      (kt : Card.KeyType) (point : List ℕ) (w : D.World)
      → Has kt point w
      → Has kt point (D.cards w).1
  pub connect :
      (b : D.Backend) (kt : Card.KeyType) (point : List ℕ) (w : D.World)
      → Has kt point w
      → Has kt point (D.connect b w).1
  pub transaction :
      (c : D.Connection) (kt : Card.KeyType) (point : List ℕ) (w : D.World)
      → Has kt point w
      → Has kt point (D.transaction c w).1

-- A card that has the key it generated, in the slot that it was told.
pub record KeepsKey (D : Card.Device) : Type 1 where
  pub shows : ShowsKey D
  pub generates :
      (c : D.Connection) (fpr : Card.KeyMaterial → ℕ → Result (List ℕ) Text) (kt : Card.KeyType)
      (point : List ℕ) (w w' : D.World)
      → D.generate_key c fpr kt w ≡ (ok (Card.ecc point), w')
      → shows.Has kt point w'

sized-ok : (n : ℕ) (message : Text) (bs a : List ℕ) → Card.sized n message bs ≡ ok a → bs ≡ a
unfolding Card.sized
sized-ok n message bs a e = ground arith

module _ (D : Card.Device) (S : ShowsKey D) where
  read_pubkey-Has :
      (c : D.Connection) (k k' : List ℕ) (w w' : D.World)
      → S.Has Card.authentication k w
      → Card.read_pubkey D c w ≡ (ok k', w')
      → k' ≡ k
  unfolding Card.read_pubkey Card.auth_key
  read_pubkey-Has c k k' w w' h e =
      let (m, v, e1, r1) =
        >>=-eq-ok (rename _ (D.public_key c Card.authentication)) (λ m. lift (Card.auth_key D m))
          {w = w} e in
      let point =
        S.reports c Card.authentication k m w v h
          (rename-eq-ok _ (D.public_key c Card.authentication) e1) in
      let sized : Card.auth_key D (Card.ecc k) ≡ ok k' = rw point at (ap (λ x. x.0) r1) in
      sym (sized-ok 32 _ k k' sized)

  started-pubkey :
      (c : D.Connection) (k k' : List ℕ) (r : Result (Unit {0}) Text) (w : D.World)
      → S.Has Card.authentication k w
      → of_key (Card.started D c Card.Req.pubkey (r, w)).0 ≡ ok k'
      → k' ≡ k
  unfolding Card.started Card.handle Card.finished Card.reply_err of_key
  started-pubkey c k k' (ok u) w h e =
      read_pubkey-Has c k k' w _ h (λ i. (e i, (Card.read_pubkey D c w).1))
  started-pubkey c k k' (err x) w h e = cc

  held-pubkey :
      (c : D.Connection) (k k' : List ℕ) (w : D.World)
      → S.Has Card.authentication k w
      → of_key (Card.held D c (Card.handle_req D c Card.Req.pubkey w)).0 ≡ ok k'
      → k' ≡ k
  unfolding Card.handle_req
  held-pubkey c k k' w h e =
      started-pubkey c k k' (D.transaction c w).0 (D.transaction c w).1
        (S.transaction c Card.authentication k w h) (rw (held-fst D c _) at e)

  open_card-Has :
      (k : List ℕ) (w : D.World)
      → S.Has Card.authentication k w
      → S.Has Card.authentication k (Card.open_card D w).1
  unfolding Card.open_card
  open_card-Has k w h = found-Has (D.cards w).0 (D.cards w).1 (S.cards Card.authentication k w h)
    where
      picked-Has :
          (r : Result D.Backend Text) (v : D.World)
          → S.Has Card.authentication k v
          → S.Has Card.authentication k (after r v D.connect).1
      picked-Has (ok b) v g = S.connect b Card.authentication k v g
      picked-Has (err x) v g = g

      found-Has :
          (r : Result (List (Result D.Backend Text)) Text) (v : D.World)
          → S.Has Card.authentication k v
          → S.Has Card.authentication k
              (after r v (λ found. lift (Card.first_card D found) >>= D.connect)).1
      found-Has (ok found) v g = picked-Has (Card.first_card D found) v g
      found-Has (err x) v g = g

  opened-pubkey :
      (k k' : List ℕ) (r : Result D.Connection Text) (w : D.World)
      → S.Has Card.authentication k w
      → of_key (Card.opened D Card.Req.pubkey (r, w)).0 ≡ ok k'
      → k' ≡ k
  unfolding Card.opened Card.reply_err of_key
  opened-pubkey k k' (ok c) w h e = held-pubkey c k k' w h e
  opened-pubkey k k' (err x) w h e = cc

  -- The key that `pubkey` returns is the one on the card.
  pub pubkey-Has :
      (k k' : List ℕ) (t t' : Card.Thread D)
      → S.Has Card.authentication k t.1
      → Methods.pubkey D t ≡ (ok k', t')
      → k' ≡ k
  unfolding Methods.pubkey Card.turn
  pubkey-Has k k' (none, w) t' h e =
      opened-pubkey k k' (Card.open_card D w).0 (Card.open_card D w).1 (open_card-Has k w h)
        (ap (λ x. x.0) e)
  pubkey-Has k k' (some c, w) t' h e = held-pubkey c k k' w h (ap (λ x. x.0) e)

module _ (D : Card.Device) (K : KeepsKey D) where
  generated_key-ok :
      (m : Card.KeyMaterial) (k : List ℕ) → Card.generated_key D m ≡ ok k → m ≡ Card.ecc k
  unfolding Card.generated_key
  generated_key-ok (Card.ecc point) k e = ap Card.ecc (sized-ok 32 _ point k e)
  generated_key-ok Card.rsa k e = cc

  provision_checked-Has :
      (c : D.Connection) (pin : Text) (k : List ℕ) (w w' : D.World)
      → Card.provision_checked D c pin w ≡ (ok k, w')
      → K.shows.Has Card.authentication k w'
  unfolding Card.provision_checked
  provision_checked-Has c pin k w w' e =
      let (u1, w1, e1, r1) = >>=-eq-ok (rename _ (D.verify_pw3 c (as_bytes pin))) _ {w = w} e in
      let (u2, w2, e2, r2) =
        >>=-eq-ok (rename _ (D.set_algorithm_attributes c _ _)) _ {w = w1} r1 in
      let (m, w3, e3, r3) =
        >>=-eq-ok (rename _ (D.generate_key c _ Card.authentication))
          (λ m. lift (Card.generated_key D m)) {w = w2} r2 in
      let made = rename-eq-ok _ (D.generate_key c _ Card.authentication) e3 in
      let point : m ≡ Card.ecc k = generated_key-ok m k (ap (λ x. x.0) r3) in
      let last : w3 ≡ w' = ap (λ x. x.1) r3 in
      K.generates c _ Card.authentication k w2 w' (made ∙ λ i. (ok (point i), last i))

  provision_auth-Has :
      (c : D.Connection) (pin : Text) (k : List ℕ) (w w' : D.World)
      → Card.provision_auth D c pin w ≡ (ok k, w')
      → K.shows.Has Card.authentication k w'
  unfolding Card.provision_auth
  provision_auth-Has c pin k w w' e = elim (Bool-cases (ltb (len pin) 8)) [
    | inl short ↦ cc (rw short at e)
    | inr long ↦ provision_checked-Has c pin k w w' (rw long at e)
  ]

  started-provision :
      (c : D.Connection) (pin : Text) (k : List ℕ) (r : Result (Unit {0}) Text) (w : D.World)
      → of_provisioned (Card.started D c (Card.Req.provision pin) (r, w)).0 ≡ ok k
      → K.shows.Has Card.authentication k (Card.started D c (Card.Req.provision pin) (r, w)).2
  unfolding Card.started Card.handle Card.finished Card.reply_err of_provisioned
  started-provision c pin k (ok u) w e =
      provision_auth-Has c pin k w _ (λ i. (e i, (Card.provision_auth D c pin w).1))
  started-provision c pin k (err x) w e = cc

  held-provision :
      (c : D.Connection) (pin : Text) (k : List ℕ) (w : D.World)
      → of_provisioned (Card.held D c (Card.handle_req D c (Card.Req.provision pin) w)).0 ≡ ok k
      → K.shows.Has Card.authentication k
          (Card.held D c (Card.handle_req D c (Card.Req.provision pin) w)).1.1
  unfolding Card.handle_req
  held-provision c pin k w e = rw (held-snd D c _) (
      started-provision c pin k (D.transaction c w).0 (D.transaction c w).1
        (rw (held-fst D c _) at e))

  opened-provision :
      (pin : Text) (k : List ℕ) (r : Result D.Connection Text) (w : D.World)
      → of_provisioned (Card.opened D (Card.Req.provision pin) (r, w)).0 ≡ ok k
      → K.shows.Has Card.authentication k (Card.opened D (Card.Req.provision pin) (r, w)).1.1
  unfolding Card.opened Card.reply_err of_provisioned
  opened-provision pin k (ok c) w e = held-provision c pin k w e
  opened-provision pin k (err x) w e = cc

  -- A key that `provision` returned is on the card.
  pub provision-Has :
      (pin : Text) (k : List ℕ) (t t' : Card.Thread D)
      → Methods.provision D pin t ≡ (ok k, t')
      → K.shows.Has Card.authentication k t'.1
  unfolding Methods.provision Card.turn
  provision-Has pin k (none, w) t' e =
      rw (← ap (λ x. x.1) e)
        (opened-provision pin k (Card.open_card D w).0 (Card.open_card D w).1 (ap (λ x. x.0) e))
  provision-Has pin k (some c, w) t' e =
      rw (← ap (λ x. x.1) e) (held-provision c pin k w (ap (λ x. x.0) e))
