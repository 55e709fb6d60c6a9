-- ===== src/Tests/Handles.antt =====
-- The card thread: its loops, many signatures for one PIN, and two handles in an interleaved run.
use sqnr.Base.{
  Bool, true, false, ok, err, length, replicate, ◌==◌, if◌then◌else◌, ◌≡◌, List, [], ◌∷◌, none, map,
}
use sqnr.Text.Utf8.{Text, codes}
use sqnr.Card
use sqnr.Card.Loops.{outer_loop, outer_loop-card_loop}
use sqnr.Card.Handles
use sqnr.Card.Handles.{Call, System, send, serve, idle}
use sqnr.Card.Handles.Signed.{Asked, sign_call, unlock_call}
use sqnr.Tests.Machines.{toy_card}

abbrev three : List Card.Req
three = Card.Req.pubkey ∷ Card.Req.unlock (codes "123456") ∷ Card.Req.sign (1 ∷ 2 ∷ []) ∷ []

outer_loop-card_loop_example : outer_loop toy_card three 0 ≡ Card.card_loop toy_card three (none, 0)
outer_loop-card_loop_example = outer_loop-card_loop toy_card three 0

-- A card whose world says whether it is unlocked.
abbrev steady_card : Card.Device
steady_card = record {
  World = Bool;
  Backend = Unit {0};
  Connection = Unit {0};
  Attributes = Unit {0};
  ecc_attributes = λ t curve oid. tt;
  sha1 = λ bs. bs;
  cards = λ w. (ok (ok tt ∷ []), w);
  connect = λ b w. (ok tt, w);
  transaction = λ c w. (ok tt, w);
  public_key = λ c slot w. (ok (Card.ecc (replicate 32 7)), w);
  verify_pw1_user =
      λ c pin w. if length pin == 6 then (ok tt, true) else (err (codes "not satisfied"), w);
  verify_pw3 = λ c pin w. (ok tt, w);
  set_algorithm_attributes = λ c slot attrs w. (ok tt, w);
  generate_key = λ c fpr slot w. (ok (Card.ecc (replicate 32 8)), w);
  internal_authenticate =
      λ c msg w. (if w then ok (replicate 64 5) else err (codes "not satisfied"), w);
}

abbrev asked : List Asked
asked = (7, 1 ∷ 2 ∷ []) ∷ (8, 3 ∷ []) ∷ []

abbrev calls : List Call
calls = unlock_call 7 (codes "123456") ∷ map sign_call asked

-- Two calls are sent, the first is served, and the third is sent while the second waits.
abbrev moment : System steady_card
moment = send steady_card (sign_call (8, 3 ∷ [])) (
    serve steady_card (unlock_call 7 (codes "123456")) (sign_call (7, 1 ∷ 2 ∷ []) ∷ []) (
      send steady_card (sign_call (7, 1 ∷ 2 ∷ []))
        (send steady_card (unlock_call 7 (codes "123456")) (idle steady_card false))))
