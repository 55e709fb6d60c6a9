-- ===== src/Tests/Kept.antt =====
-- A card that counts its connections, and a session that it keeps.
use sqnr.Base.{
  ℕ, suc, ◌≡◌, refl, some, List, [], ◌∷◌, ok, err, length, replicate, ◌==◌, if◌then◌else◌,
}
use sqnr.Text.Utf8.{codes, as_bytes, len}
use sqnr.Text.Search.{contains, to_ascii_lowercase}
use sqnr.Card
use sqnr.Card.Kept.{Stays, IsPresent, card_loop-IsKept}

-- Its world is the number of times that it was connected, and its user PIN has six characters.
abbrev counting_card : Card.Device
counting_card = record {
  World = ℕ;
  Backend = Unit {0};
  Connection = Unit {0};
  Attributes = Unit {0};
  ecc_attributes = λ t curve oid. tt;
  sha1 = λ bs. bs;
  cards = λ w. (ok (ok tt ∷ []), w);
  connect = λ b w. (ok tt, suc w);
  transaction = λ c w. (ok tt, w);
  public_key = λ c slot w. (ok (Card.ecc (replicate 32 7)), w);
  verify_pw1_user = λ c pin w. (if length pin == 6 then ok tt else err (codes "not satisfied"), w);
  verify_pw3 = λ c pin w. (ok tt, w);
  set_algorithm_attributes = λ c slot attrs w. (ok tt, w);
  generate_key = λ c fpr slot w. (ok (Card.ecc (replicate 32 8)), w);
  internal_authenticate = λ c msg w. (ok (replicate 64 5), w);
}

abbrev counting : Stays counting_card
counting = record {
  Count = ℕ;
  count = λ w. w;
  begins = λ c w. refl;
  transaction = λ c. record { at = λ w. refl };
  public_key = λ c slot. record { at = λ w. refl };
  verify_pw1_user = λ c pin. record { at = λ w. refl };
  verify_pw3 = λ c pin. record { at = λ w. refl };
  set_algorithm_attributes = λ c slot attrs. record { at = λ w. refl };
  generate_key = λ c fpr slot. record { at = λ w. refl };
  internal_authenticate = λ c msg. record { at = λ w. refl };
}

-- A PIN that is rejected, a key, and the PIN again.
abbrev tries : List Card.Req
tries =
    Card.Req.unlock (codes "1234")
    ∷ Card.Req.pubkey
    ∷ Card.Req.provision (codes "1234")
    ∷ Card.Req.unlock (codes "123456")
    ∷ []

rejected : IsPresent (Card.unlocked (err (codes "PIN rejected: not satisfied")))
unfolding contains to_ascii_lowercase
rejected = (refl, (refl, (refl, (refl, (refl, (refl, tt))))))

too_short : IsPresent (Card.provisioned (err (Card.short_pin 4)))
unfolding contains to_ascii_lowercase Card.short_pin
too_short = (refl, (refl, (refl, (refl, (refl, (refl, tt))))))

card_loop-IsKept_example :
    (v : ℕ) × ((Card.card_loop counting_card tries (some tt, 3)).1 ≡ (some tt, v)) × (v ≡ 3)
unfolding Card.card_loop Card.turn Card.held Card.handle_req Card.started Card.handle Card.finished
    Card.read_pubkey Card.auth_key Card.sized Card.unlock_user Card.provision_auth Card.short_pin
    Card.is_comm_failure Card.any_needle contains to_ascii_lowercase len as_bytes
card_loop-IsKept_example =
    card_loop-IsKept counting_card counting tt tries 3 (rejected, (tt, (too_short, (tt, tt))))
