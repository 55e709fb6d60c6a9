-- ===== src/Flow/Unlocked.antt =====
-- The flow with a YubiKey, from the card thread on: its key is read, its PIN is given, and it signs.
use sqnr.Base.{ℕ, ◌≡◌, refl, sym, ◌∙◌, ap, none, some, List, [], ◌∷◌, ◌++◌, Result, ok, err}
use sqnr.Text.Utf8.{Text, as_bytes}
use sqnr.Effect.{rename-eq-ok}
use sqnr.Core.Key.{PubKey}
use sqnr.Core.Tx.{Operation, Transaction, signing_bytes}
use sqnr.Core.Tx.Valid.{IsTransaction}
use sqnr.Core.Signed.{Crypto, SignedTransaction, decode, verify, create, software_signer}
use sqnr.Core.Signed.Verify
use sqnr.Card
use sqnr.Card.Sessions.{held-fst}
use sqnr.Card.Keys.{ShowsKey, pubkey-Has}
use sqnr.Card.Methods
use sqnr.Card.Methods.{of_unlocked}
use sqnr.Signer.{yubikey}
use sqnr.Flow.{
  Client, Json, got, reviewed, touched, signed, posted, challenge_path, command_path, World,
  sign_and_submit,
}
use sqnr.Flow.Touch.{SignsWith, sign_and_submit-touched}

-- A card with the key `k` in its slot: it reports its public half, and signs with it once it has
-- accepted a PIN.
pub record Carries (C : Crypto) (D : Card.Device) (k : C.SigningKey) : Type 1 where
  pub signs : SignsWith C D k
  pub unlocks :
      (c : D.Connection) (pin : List ℕ) (w w' : D.World)
      → D.verify_pw1_user c pin w ≡ (ok tt, w')
      → signs.IsReady c w'
  pub reports :
      (c : D.Connection) (m : Card.KeyMaterial) (w w' : D.World)
      → D.public_key c Card.authentication w ≡ (ok m, w')
      → m ≡ Card.ecc (C.to_bytes (C.verifying_key k))

module _ (C : Crypto) (D : Card.Device) (k : C.SigningKey) (K : Carries C D k) where
  shown : ShowsKey D
  shown = record {
    Has = λ kt point w. (kt ≡ Card.authentication) × (point ≡ C.to_bytes (C.verifying_key k));
    reports = λ c kt point m w w' h e.
        K.reports c m w w' (ap (λ s. D.public_key c s w) (sym h.0) ∙ e) ∙ ap Card.ecc (sym h.1);
    cards = λ kt point w h. h;
    connect = λ b kt point w h. h;
    transaction = λ c kt point w h. h;
  }

  -- The session is held and the card is ready.
  abbrev IsOpen : Card.Thread D → Type 0
  IsOpen t = (c : D.Connection) × (u : D.World) × (t ≡ (some c, u)) × K.signs.IsReady c u

  handled-unlock :
      (c : D.Connection) (pin : Text) (r : Result (Unit {0}) Text) (w : D.World)
      → Card.unlock_user D c pin w ≡ (r, (Card.unlock_user D c pin w).1)
      → r ≡ ok tt
      → IsOpen (Card.held D c (Card.finished D Card.unlocked (r, (Card.unlock_user D c pin w).1))).1
  unfolding Card.unlock_user Card.finished Card.held Card.is_comm_failure
  handled-unlock c pin (ok u) w e h = (
    c,
    (Card.unlock_user D c pin w).1,
    refl,
    K.unlocks c (as_bytes pin) w _ (rename-eq-ok _ (D.verify_pw1_user c (as_bytes pin)) {w = w} e),
  )
  handled-unlock c pin (err x) w e h = cc

  started-unlock :
      (c : D.Connection) (pin : Text) (r : Result (Unit {0}) Text) (w : D.World)
      → of_unlocked (Card.started D c (Card.Req.unlock pin) (r, w)).0 ≡ ok tt
      → IsOpen (Card.held D c (Card.started D c (Card.Req.unlock pin) (r, w))).1
  unfolding Card.started Card.handle Card.finished Card.reply_err of_unlocked
  started-unlock c pin (ok u) w e = handled-unlock c pin _ w refl e
  started-unlock c pin (err x) w e = cc

  opened-unlock :
      (pin : Text) (r : Result D.Connection Text) (w : D.World)
      → of_unlocked (Card.opened D (Card.Req.unlock pin) (r, w)).0 ≡ ok tt
      → IsOpen (Card.opened D (Card.Req.unlock pin) (r, w)).1
  unfolding Card.opened Card.handle_req Card.reply_err of_unlocked
  opened-unlock pin (ok c) w e =
      started-unlock c pin (D.transaction c w).0 (D.transaction c w).1 (rw (held-fst D c _) at e)
  opened-unlock pin (err x) w e = cc

  -- A PIN that was accepted leaves the session open, on a card that is ready.
  unlock-IsOpen :
      (pin : Text) (t t' : Card.Thread D) → Methods.unlock D pin t ≡ (ok tt, t') → IsOpen t'
  unfolding Methods.unlock Card.turn Card.handle_req
  unlock-IsOpen pin (none, w) t' e =
      rw (← ap (λ x. x.1) e)
        (opened-unlock pin (Card.open_card D w).0 (Card.open_card D w).1 (ap (λ x. x.0) e))
  unlock-IsOpen pin (some c, w) t' e = rw (← ap (λ x. x.1) e) (
      started-unlock c pin (D.transaction c w).0 (D.transaction c w).1
        (rw (held-fst D c _) at (ap (λ x. x.0) e)))

module _ (C : Crypto) (L : Verify.IsLawful C) (D : Card.Device) (N : Client) (J : Json)
    (k : C.SigningKey) (K : Carries C D k) where
  -- With a YubiKey that carries a key: where `pubkey` gave a public key and `unlock` took the PIN,
  -- whatever the thread did before, a run of the backend with that public key, with a challenge of 32
  -- bytes and a batch within the bounds, shows the operator one transaction, over the server's nonce,
  -- asks for the touch, and posts one message, which decodes to that transaction, has that public key
  -- as its admin, and is accepted by the server.
  pub sign_and_submit-unlock :
      (pin : Text) (key : List ℕ) (t t' : Card.Thread D) (server : PubKey) (op : Operation)
      (ops : List Operation) (nonce : List ℕ) (w : World C D N J)
      → Methods.pubkey D t ≡ (ok key, t')
      → Methods.unlock D pin t' ≡ (ok tt, w.thread)
      → (N.get challenge_path w.net).0 ≡ ok (200, nonce)
      → let x : Transaction = record { server = server; nonce = nonce; ops = op ∷ ops } in
        IsTransaction x
        → (body : List ℕ) × (s : SignedTransaction) × ((sign_and_submit C D N J
              (yubikey C (record { raw = key }))
              server
              (op ∷ ops)
              w).1.trace
            ≡ w.trace
              ++ (got challenge_path
                  ∷ reviewed x
                  ∷ touched
                  ∷ signed (signing_bytes C.digest x)
                  ∷ posted command_path body
                  ∷ []))
          × (decode body ≡ ok s)
          × (s.transaction ≡ x)
          × (s.admin ≡ record { raw = key })
          × (verify C s server ≡ ok tt)
  unfolding create software_signer shown
  sign_and_submit-unlock pin key t t' server op ops nonce w shows opens e h =
      let same : key ≡ C.to_bytes (C.verifying_key k) =
        pubkey-Has D (shown C D k K) (C.to_bytes (C.verifying_key k)) key t t' (refl, refl) shows in
      let (c, u, held, ready) = unlock-IsOpen C D k K pin t' w.thread opens in
      let (body, s, trace, back, whole, accepted) =
        sign_and_submit-touched C L D N J k K.signs c server op ops nonce w u held ready e h in
      (
        body,
        s,
        rw same trace,
        back,
        ap (λ (m : SignedTransaction). m.transaction) whole,
        ap (λ (m : SignedTransaction). m.admin) whole ∙ ap (λ x. record { raw = x }) (sym same),
        accepted,
      )
