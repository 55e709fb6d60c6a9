-- ===== src/Tests/Tries.antt =====
-- A card that counts the PINs that it is shown, and handles that show it some.
use sqnr.Base.{ℕ, ◌+◌, ◌≤◌, refl, [], ◌∷◌, ok, err, length, replicate, ◌==◌, if◌then◌else◌, arith}
use sqnr.Text.Utf8.{codes}
use sqnr.Card
use sqnr.Card.{Device, ecc}
use sqnr.Card.Tries.{CountsTries, shown_by, Run-tries}
use sqnr.Card.Handles
use sqnr.Card.Handles.{Call, System, Run, send, serve, idle}

-- The world is the number of PINs that were shown; a PIN of 8 bytes is accepted.
abbrev counting_card : Device
counting_card = record {
  World = ℕ;
  Backend = Unit {0};
  Connection = Unit {0};
  Attributes = Unit {0};
  ecc_attributes = λ t curve oid. tt;
  sha1 = λ bs. bs;
  cards = λ w. (ok (ok tt ∷ []), w);
  connect = λ b w. (ok tt, w);
  transaction = λ c w. (ok tt, w);
  public_key = λ c slot w. (ok (ecc (replicate 32 8)), w);
  verify_pw1_user =
      λ c pin w. (if length pin == 8 then ok tt else err (codes "not satisfied"), w + 1);
  verify_pw3 = λ c pin w. (if length pin == 8 then ok tt else err (codes "not satisfied"), w + 1);
  set_algorithm_attributes = λ c slot attrs w. (ok tt, w);
  generate_key = λ c fpr slot w. (ok (ecc (replicate 32 8)), w);
  internal_authenticate = λ c msg w. (ok (replicate 64 5), w);
}

abbrev counts : CountsTries counting_card
counts = record {
  tries = λ w. w;
  cards = record { at = λ w. refl };
  connect = λ b. record { at = λ w. refl };
  transaction = λ c. record { at = λ w. refl };
  public_key = λ c slot. record { at = λ w. refl };
  set_algorithm_attributes = λ c slot attrs. record { at = λ w. refl };
  generate_key = λ c fpr slot. record { at = λ w. refl };
  internal_authenticate = λ c msg. record { at = λ w. refl };
  verify_pw1_user = λ c pin. record { at = λ w. omega arith };
  verify_pw3 = λ c pin. record { at = λ w. omega arith };
}

abbrev unlocks : Call
unlocks = record { caller = 1; req = Card.Req.unlock (codes "1234") }

abbrev short : Call
short = record { caller = 2; req = Card.Req.provision (codes "123456") }

abbrev renews : Call
renews = record { caller = 1; req = Card.Req.provision (codes "12345678") }

-- The two provisions still wait.
abbrev moment : System counting_card
moment = send counting_card renews (
    serve counting_card unlocks (short ∷ [])
      (send counting_card short (send counting_card unlocks (idle counting_card 4))))

moment-Run : Run counting_card (idle counting_card 4) (unlocks ∷ short ∷ renews ∷ []) moment
unfolding send serve
moment-Run = Handles.sends renews (
    Handles.serves unlocks (short ∷ []) refl
      (Handles.sends short (Handles.sends unlocks Handles.begin)))

Run-tries_example :
    moment.thread.1 + shown_by moment.channel ≤ 4 + shown_by (unlocks ∷ short ∷ renews ∷ [])
Run-tries_example =
    Run-tries counting_card counts 4 (unlocks ∷ short ∷ renews ∷ []) moment moment-Run
