-- ===== src/Tests/Touch.antt =====
-- The flow with a YubiKey at a concrete input.
use sqnr.Base.{
  ok-injective, ℕ, ap, sym, none, false, ◌≡◌, refl, Bool, true, List, [], ◌∷◌, some, ok, err,
  replicate, if◌then◌else◌,
}
use sqnr.Text.Utf8.{codes}
use sqnr.Core.Tx.{signing_bytes}
use sqnr.Core.Signed.{SignedTransaction, decode, verify}
use sqnr.Card
use sqnr.Flow.{
  got, reviewed, touched, signed, posted, challenge_path, command_path, World, sign_and_submit,
}
use sqnr.Flow.Unlocked.{Carries, sign_and_submit-unlock}
use sqnr.Card.Methods
use sqnr.Signer.{yubikey}
use sqnr.Tests.Toy.{fit}
use sqnr.Flow.Touch.{SignsWith}
use sqnr.Tests.Toy.{toy, toy-IsLawful}
use sqnr.Tests.Machines.{toy_net, toy_json}
use sqnr.Tests.Wire.{server}
use sqnr.Tests.Runs.{first, single, single-IsTransaction}

-- A card whose world says whether it is unlocked, with the key of the tests.
abbrev keyed_card : Card.Device
keyed_card = record {
  World = Bool;
  Backend = Unit {0};
  Connection = Unit {0};
  Attributes = Unit {0};
  ecc_attributes = λ t curve oid. tt;
  sha1 = λ bs. bs;
  cards = λ w. (ok (ok tt ∷ []), w);
  connect = λ b w. (ok tt, w);
  transaction = λ c w. (ok tt, w);
  public_key = λ c slot w. (ok (Card.ecc (replicate 32 9)), w);
  verify_pw1_user = λ c pin w. (ok tt, true);
  verify_pw3 = λ c pin w. (ok tt, w);
  set_algorithm_attributes = λ c slot attrs w. (ok tt, w);
  generate_key = λ c fpr slot w. (ok (Card.ecc (replicate 32 8)), w);
  internal_authenticate =
      λ c msg w. (if w then ok (toy.sign (replicate 32 9) msg) else err (codes "not satisfied"), w);
}

keyed_card-SignsWith : SignsWith toy keyed_card (replicate 32 9)
keyed_card-SignsWith = record {
  IsReady = λ c w. w ≡ true;
  begins = λ c w h. (w, refl, h);
  signs = λ c msg w h. (
    w,
    λ i. (if h i then ok (toy.sign (replicate 32 9) msg) else err (codes "not satisfied"), w),
  );
}

abbrev ready : World toy keyed_card toy_net toy_json
ready = record { net = 0; thread = (some tt, true); trace = [] }

keyed_card-Carries : Carries toy keyed_card (replicate 32 9)
unfolding keyed_card-SignsWith fit
keyed_card-Carries = record {
  signs = keyed_card-SignsWith;
  unlocks = λ c pin w w' e. sym (ap (λ x. x.1) e);
  reports = λ c m w w' e. sym (ok-injective (ap (λ x. x.0) e));
}

sign_and_submit-unlock_example :
    (body : List ℕ) × (s : SignedTransaction) × ((sign_and_submit toy keyed_card toy_net toy_json
        (yubikey toy (record { raw = replicate 32 9 }))
        server
        (first ∷ [])
        ready).1.trace
      ≡ got challenge_path
        ∷ reviewed single
        ∷ touched
        ∷ signed (signing_bytes toy.digest single)
        ∷ posted command_path body
        ∷ [])
    × (decode body ≡ ok s)
    × (s.transaction ≡ single)
    × (s.admin ≡ record { raw = replicate 32 9 })
    × (verify toy s server ≡ ok tt)
sign_and_submit-unlock_example =
    sign_and_submit-unlock toy toy-IsLawful keyed_card toy_net toy_json (replicate 32 9)
      keyed_card-Carries (codes "123456") (replicate 32 9) (none, false) (some tt, false) server
      first [] (replicate 32 3) ready
      (unfold Methods.pubkey Methods.of_key Card.turn Card.opened Card.open_card Card.first_card
          Card.held Card.handle_req Card.started Card.handle Card.finished Card.read_pubkey
          Card.auth_key Card.sized Card.is_comm_failure in
        refl)
      (unfold Methods.unlock Methods.of_unlocked Card.turn Card.held Card.handle_req Card.started
          Card.handle Card.finished Card.unlock_user Card.is_comm_failure in
        refl)
      refl single-IsTransaction
