-- ===== src/Tests/Slot.antt =====
-- A card that keeps a key in its slot, its requests, and the commands that make and show the key.
use sqnr.Base.{
  ℕ, ◌≡◌, refl, sym, ap, ◌∙◌, inl, inr, Option, none, some, List, [], ◌∷◌, ◌++◌, true, Result, ok,
  err, length, replicate, ◌==◌, if◌then◌else◌, arith,
}
use sqnr.Text.Utf8.{Text, codes, len, as_bytes}
use sqnr.Core.Key.{display_key}
use sqnr.Card
use sqnr.Card.{
  Device, KeyMaterial, ecc, rsa, KeyType, signing, decryption, authentication, attestation,
}
use sqnr.Card.Methods
use sqnr.Card.Slot.{HasSlot}
use sqnr.Card.Handles
use sqnr.Card.Handles.{Call, System, Run, send, serve, idle}
use sqnr.Card.Handles.Keeps.{Run-slot}
use sqnr.Card.Keys.{KeepsKey}
use sqnr.Config.{Config}
use sqnr.Cli
use sqnr.Cli.{provision_notice}
use sqnr.Cli.Provision.{run_pubkey-run_provision}
use sqnr.Tests.Toy.{toy, toy_encodings}
use sqnr.Tests.Machines.{toy_vault}
use sqnr.Tests.Files.{one_file}

unfoldable pub key_in : Option (List ℕ) → Result KeyMaterial Text
key_in none = err (codes "no key")
key_in (some k) = ok (ecc k)

-- The keys in the slots of a card.
abbrev Slots : Type 0
Slots = KeyType → Option (List ℕ)

unfoldable put : KeyType → Option (List ℕ) → Slots → Slots
put signing k w signing = k
put decryption k w decryption = k
put authentication k w authentication = k
put attestation k w attestation = k
put _ k w kt = w kt

put-at : (kt : KeyType) (k : Option (List ℕ)) (w : Slots) → put kt k w kt ≡ k
unfolding put
put-at signing k w = refl
put-at decryption k w = refl
put-at authentication k w = refl
put-at attestation k w = refl

-- A card whose world is the keys in its slots, and whose admin PIN has 8 bytes.
abbrev slot_card : Device
slot_card = record {
  World = Slots;
  Backend = Unit {0};
  Connection = Unit {0};
  Attributes = Unit {0};
  ecc_attributes = λ t curve oid. tt;
  sha1 = λ bs. bs;
  cards = λ w. (ok (ok tt ∷ []), w);
  connect = λ b w. (ok tt, w);
  transaction = λ c w. (ok tt, w);
  public_key = λ c slot w. (key_in (w slot), w);
  verify_pw1_user = λ c pin w. (ok tt, w);
  verify_pw3 = λ c pin w. (if length pin == 8 then ok tt else err (codes "not satisfied"), w);
  set_algorithm_attributes = λ c slot attrs w. (ok tt, put slot none w);
  generate_key = λ c fpr slot w. (ok (ecc (replicate 32 8)), put slot (some (replicate 32 8)) w);
  internal_authenticate = λ c msg w. (ok (replicate 64 5), w);
}

abbrev slot_laws : HasSlot slot_card
slot_laws = record {
  Slot = Option (List ℕ);
  slot = λ w. w authentication;
  cards = record { at = λ w. refl };
  connect = λ b. record { at = λ w. refl };
  transaction = λ c. record { at = λ w. refl };
  public_key = λ c slot. record { at = λ w. refl };
  verify_pw1_user = λ c pin. record { at = λ w. refl };
  verify_pw3 = λ c pin. record { at = λ w. refl };
  internal_authenticate = λ c msg. record { at = λ w. refl };
}

-- Two attempts to provision, of which one waits while the card is asked for its key.
abbrev asks : Call
asks = record { caller = 1; req = Card.Req.pubkey }

abbrev short : Call
short = record { caller = 2; req = Card.Req.provision (codes "123456") }

abbrev refused : Call
refused = record { caller = 1; req = Card.Req.provision (codes "123456789") }

abbrev holding : Slots
holding = λ kt. some (replicate 32 4)

abbrev moment : System slot_card
moment = serve slot_card short (refused ∷ []) (
    send slot_card refused (
      serve slot_card asks (short ∷ [])
        (send slot_card short (send slot_card asks (idle slot_card holding)))))

moment-Run : Run slot_card (idle slot_card holding) (asks ∷ short ∷ refused ∷ []) moment
unfolding send serve
moment-Run = Handles.serves short (refused ∷ []) refl (
    Handles.sends refused (
      Handles.serves asks (short ∷ []) refl
        (Handles.sends short (Handles.sends asks Handles.begin))))

Run-slot_example : moment.thread.1 authentication ≡ some (replicate 32 4)
Run-slot_example =
    Run-slot slot_card slot_laws holding (asks ∷ short ∷ refused ∷ []) moment moment-Run (
      tt,
      (
        inl (unfold len as_bytes in omega arith),
        (inr (λ c w. (codes "not satisfied", unfold as_bytes in refl)), tt),
      ),
    )

point-injective :
    (a b : List ℕ) → ◌≡◌ {A = Result KeyMaterial Text} (ok (ecc a)) (ok (ecc b)) → a ≡ b
point-injective a b e = cc

slot_card-KeepsKey : KeepsKey slot_card
unfolding key_in
slot_card-KeepsKey = record {
  shows = record {
    Has = λ kt k w. w kt ≡ some k;
    reports = λ c kt point m w w' h e. cc;
    cards = λ kt point w h. h;
    connect = λ b kt point w h. h;
    transaction = λ c kt point w h. h;
  };
  generates = λ c fpr kt point w w' e.
      ap (λ x. x.1 kt) (sym e)
      ∙ put-at kt _ w
      ∙ ap some (point-injective (replicate 32 8) point (ap (λ x. x.0) e));
}

-- The operator types the default admin PIN.
abbrev admin : Cli.Terminal
admin = record { World = ℕ; prompt_password = λ label w. (ok (codes "12345678"), w) }

abbrev before : Cli.World toy toy_encodings toy_vault one_file slot_card admin
before = record { files = none; card = λ kt. none; term = 0; setting = 0; printed = [] }

abbrev config : Config one_file
config = record { server = none; server_key = none; identity = none; envelope_version = none }

abbrev after : Cli.World toy toy_encodings toy_vault one_file slot_card admin
after = (Cli.run_provision toy toy_encodings toy_vault one_file slot_card admin true before).1

abbrev shown : Cli.World toy toy_encodings toy_vault one_file slot_card admin
shown =
    (Cli.run_pubkey toy toy_encodings toy_vault one_file slot_card admin true none config after).1

run_pubkey-run_provision_example :
    (k : List ℕ) × (after.printed
      ≡ provision_notice ∷ display_key toy_encodings (record { raw = k }) ∷ [])
    × (shown.printed ≡ after.printed ++ (display_key toy_encodings (record { raw = k }) ∷ []))
unfolding Cli.run_provision Cli.provision_card Cli.print Cli.ask Cli.spawned Methods.provision
    Methods.of_provisioned Card.turn Card.opened Card.open_card Card.first_card Card.held
    Card.handle_req Card.started Card.handle Card.finished Card.provision_auth
    Card.provision_checked Card.generated_key Card.sized Card.is_comm_failure len as_bytes
    Cli.run_pubkey Cli.printed_key Methods.pubkey Methods.of_key Card.read_pubkey Card.auth_key
    key_in put
run_pubkey-run_provision_example =
    run_pubkey-run_provision toy toy_encodings toy_vault one_file slot_card admin slot_card-KeepsKey
      none config before after shown refl refl
