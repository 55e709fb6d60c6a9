-- ===== src/Card/Methods.antt =====
-- crates/sqnr/src/card.rs: the methods of the handle `Card`. A request always reaches the thread,
-- which runs as long as there is a handle.
use sqnr.Base.{ℕ, none, List, Result, err}
use sqnr.Text.Utf8.{Text, codes}
use sqnr.Effect.{Act}
use sqnr.Card.{Device, Req, Reply, key, unlocked, signature, provisioned, Thread, turn}

-- What a method of `Card` takes from its reply channel; a reply of another kind is never sent.
abbrev dropped : {A : Type 0} → Result A Text
dropped = err (codes "card thread dropped the request")

unfoldable pub of_key : Reply → Result (List ℕ) Text
of_key (key r) = r
of_key _ = dropped

unfoldable pub of_unlocked : Reply → Result (Unit {0}) Text
of_unlocked (unlocked r) = r
of_unlocked _ = dropped

unfoldable pub of_signature : Reply → Result (List ℕ) Text
of_signature (signature r) = r
of_signature _ = dropped

unfoldable pub of_provisioned : Reply → Result (List ℕ) Text
of_provisioned (provisioned r) = r
of_provisioned _ = dropped

module _ (D : Device) where
  -- `Card::spawn`: a thread that holds no connection yet.
  abbrev pub spawn : D.World → Thread D
  spawn w = (none, w)

  unfoldable pub pubkey : Act (Thread D) (List ℕ)
  unfolding of_key
  pubkey t = let (reply, t') = turn D Req.pubkey t in (of_key reply, t')

  unfoldable pub unlock : Text → Act (Thread D) (Unit {0})
  unfolding of_unlocked
  unlock pin t = let (reply, t') = turn D (Req.unlock pin) t in (of_unlocked reply, t')

  unfoldable pub provision : Text → Act (Thread D) (List ℕ)
  unfolding of_provisioned
  provision admin_pin t =
      let (reply, t') = turn D (Req.provision admin_pin) t in (of_provisioned reply, t')

  unfoldable pub sign : List ℕ → Act (Thread D) (List ℕ)
  unfolding of_signature
  sign msg t = let (reply, t') = turn D (Req.sign msg) t in (of_signature reply, t')
