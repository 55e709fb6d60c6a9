-- ===== src/Tests/Locked.antt =====
-- A sealed identity file that is opened rightly, wrongly, and without a passphrase.
use sqnr.Base.{
  ℕ, ◌≡◌, ◌≢◌, refl, sym, ap, ◌∙◌, Bool, true, false, Option, none, some, List, [], ◌∷◌, Result, ok,
  err, ok-injective, length, replicate, ltb, ◌==◌, if◌then◌else◌, arith,
}
use sqnr.Text.Utf8.{Text, codes, as_bytes}
use sqnr.Core.Bytes.{IsBytes}
use sqnr.Identity
use sqnr.Identity.{Vault, write_file}
use sqnr.Identity.Files
use sqnr.Identity.Files.{generate, load, read_public, public_of}
use sqnr.Identity.Seal
use sqnr.Identity.Locked.{Refuses, load-generate_locked}
use sqnr.Tests.Toy.{toy, toy-IsLawful, toy_encodings, toy_encodings-IsLawful, fit}
use sqnr.Tests.Runs.{draws, draws-IsDraws}
use sqnr.Tests.Files.{one_file, one_file-IsLawful, holds}

abbrev bit : Bool → ℕ
bit true = 1
bit false = 0

unfoldable check : Bool → List ℕ → Result (List ℕ) Text
check c [] = err (codes "no tag")
check c (t ∷ m) = if t == bit c then ok m else err (codes "wrong tag")

-- The key is the passphrase, the cipher whether it is long, and the tag that bit.
abbrev bit_vault : Vault
bit_vault = record {
  Params = Unit {0};
  Cipher = Bool;
  params = λ m t p n. ok tt;
  hash_password = λ p passphrase salt. ok passphrase;
  new_cipher = λ k. ok (ltb 8 (length k));
  encrypt = λ c nonce m. ok (bit c ∷ m);
  decrypt = λ c nonce ct. check c ct;
}

check-bit : (c : Bool) (m : List ℕ) → check c (bit c ∷ m) ≡ ok m
unfolding check
check-bit true m = refl
check-bit false m = refl

bit-IsBytes : (c : Bool) (m : List ℕ) → IsBytes m → IsBytes (bit c ∷ m)
bit-IsBytes true m h = (omega arith, h)
bit-IsBytes false m h = (omega arith, h)

bit_vault-IsLawful : Seal.IsLawful bit_vault
bit_vault-IsLawful = record {
  decrypt-encrypt = λ c nonce m ct e. ap (check c) (sym (ok-injective e)) ∙ check-bit c m;
  encrypt_bytes = λ c nonce m ct h e. rw (← ok-injective e) (bit-IsBytes c m h);
}

check_other : (c c' : Bool) (m : List ℕ) → c ≢ c' → check c' (bit c ∷ m) ≡ err (codes "wrong tag")
unfolding check
check_other true true m h = absurd (h refl)
check_other true false m h = refl
check_other false true m h = refl
check_other false false m h = absurd (h refl)

true-false : ◌≢◌ {A = Bool} true false
true-false e = cc

refuses : Refuses bit_vault false (codes "correct horse") draws
unfolding Identity.argon2 Identity.cipher_of as_bytes
refuses c ct h e = (
  codes "wrong tag",
  ap (check false) (sym (ok-injective e))
      ∙ check_other c false draws.seed (λ q. true-false (ok-injective h ∙ q)),
)

abbrev kept : Option (List ℕ)
kept =
    (generate toy toy_encodings bit_vault one_file (codes "id") (some (codes "correct horse")) draws
      none).1

kept_made :
    generate toy toy_encodings bit_vault one_file
      (codes "id")
      (some (codes "correct horse"))
      draws
      none
    ≡ (ok (record { raw = replicate 32 9 }), kept)
unfolding generate Files.create_new Files.new_contents write_file public_of holds fit
    Identity.encrypt_seed Identity.argon2 Identity.cipher_of
kept_made = refl

load-generate_locked_example :
    ((load toy toy_encodings bit_vault one_file (codes "id") none kept).0
      ≡ err (codes "identity is encrypted; a passphrase is required"))
    × ((load toy toy_encodings bit_vault one_file (codes "id") (some (codes "wrong")) kept).0
        ≡ err (codes "decryption failed (wrong passphrase?)"))
load-generate_locked_example =
    load-generate_locked toy toy_encodings toy_encodings-IsLawful bit_vault bit_vault-IsLawful
      toy-IsLawful (λ seed h. refl) one_file one_file-IsLawful (codes "id") (codes "correct horse")
      (codes "wrong") draws (record { raw = replicate 32 9 }) false none kept draws-IsDraws
      (unfold Identity.argon2 Identity.cipher_of as_bytes in refl) refuses kept_made
