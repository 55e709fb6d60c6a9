-- ===== src/Tests/Machines.antt =====
-- Stand-ins for the card, the network, the body of a response and the cipher.
use sqnr.Base.{
  ℕ, suc, ◌%◌, ◌≡◌, ap, sym, ◌∙◌, Option, none, some, List, [], ◌∷◌, Result, ok, err, ok-injective,
  length, replicate, ◌==◌, if◌then◌else◌, arith,
}
use sqnr.Text.Utf8.{Text, codes}
use sqnr.Core.Bytes.{IsBytes}
use sqnr.Card.{Device, ecc}
use sqnr.Flow.{Client, Json}
use sqnr.Client
use sqnr.Identity.{Vault}
use sqnr.Identity.Seal

-- A card whose world counts the exchanges with it. It is gone where none has happened yet; its PIN
-- has six characters, and it signs nothing in the ninth exchange.
abbrev pub toy_card : Device
toy_card = record {
  World = ℕ;
  Backend = Unit {0};
  Connection = Unit {0};
  Attributes = Unit {0};
  ecc_attributes = λ t curve oid. tt;
  sha1 = λ bs. bs;
  cards = λ w. (ok (ok tt ∷ []), suc w);
  connect = λ b w. (ok tt, suc w);
  transaction = λ c w. (if w == 0 then err (codes "Card was REMOVED") else ok tt, w);
  public_key = λ c slot w. (ok (ecc (replicate 32 7)), suc w);
  verify_pw1_user =
      λ c pin w. (if length pin == 6 then ok tt else err (codes "not satisfied"), suc w);
  verify_pw3 = λ c pin w. (ok tt, suc w);
  set_algorithm_attributes = λ c slot attrs w. (ok tt, suc w);
  generate_key = λ c fpr slot w. (ok (ecc (replicate 32 8)), suc w);
  internal_authenticate =
      λ c msg w. (if w == 9 then err (codes "Transmit failed") else ok (replicate 64 5), suc w);
}

-- A server that always gives the same nonce, and accepts all.
abbrev pub toy_net : Client
toy_net = record {
  Net = ℕ;
  get = λ path w. (ok (200, replicate 32 3), suc w);
  post = λ path body w. (ok (200, codes "{}"), suc w);
}

abbrev pub toy_json : Json
toy_json = record { Value = List ℕ; null = []; from_slice = λ bs. ok bs; str_field = λ v k. none }

unfoldable pub next_chunk :
    List (List (List ℕ)) → Result (Option (List (List ℕ))) Text × List (List (List ℕ))
next_chunk [] = (ok none, [])
next_chunk (c ∷ cs) = (ok (some c), cs)

-- A response whose chunks are the world.
abbrev pub toy_http : Client.Http
toy_http = record {
  World = List (List (List ℕ));
  Address = Unit {0};
  Quic = Unit {0};
  Sender = Unit {0};
  Request = Text;
  RequestStream = Unit {0};
  dial = λ a k c w. (ok tt, w);
  h3_new = λ q w. (ok tt, w);
  build = λ method uri. ok uri;
  send_request = λ s r w. (ok tt, w);
  send_data = λ s bs w. (ok tt, w);
  finish = λ s w. (ok tt, w);
  recv_response = λ s w. (ok 200, w);
  recv_data = λ s w. next_chunk w;
  send_datagram = λ q bs w. (ok tt, w);
  read_datagram = λ q w. (ok [], w);
  max_datagram_size = λ q w. none;
}

unfoldable pub unseal : List ℕ → List ℕ → Result (List ℕ) Text
unseal c [] = err (codes "no tag")
unseal c (t ∷ m) = if t == length c % 256 then ok m else err (codes "wrong tag")

-- The key is the passphrase, and the tag its length.
abbrev pub toy_vault : Vault
toy_vault = record {
  Params = Unit {0};
  Cipher = List ℕ;
  params = λ m t p n. ok tt;
  hash_password = λ p passphrase salt. ok passphrase;
  new_cipher = λ k. ok k;
  encrypt = λ c nonce m. ok ((length c % 256) ∷ m);
  decrypt = λ c nonce ct. unseal c ct;
}

unseal-seal : (c m : List ℕ) → unseal c ((length c % 256) ∷ m) ≡ ok m
unfolding unseal
unseal-seal c m = ground arith

seal-IsBytes : (c m : List ℕ) → IsBytes m → IsBytes ((length c % 256) ∷ m)
seal-IsBytes c m h = (omega arith, h)

pub toy_vault-IsLawful : Seal.IsLawful toy_vault
toy_vault-IsLawful = record {
  decrypt-encrypt = λ c nonce m ct e. ap (unseal c) (sym (ok-injective e)) ∙ unseal-seal c m;
  encrypt_bytes = λ c nonce m ct h e. rw (← ok-injective e) (seal-IsBytes c m h);
}
