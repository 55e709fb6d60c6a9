-- ===== src/Tests/Wire.antt =====
-- Keys, transactions and signed transactions on the wire.
use sqnr.Base.{
  ℕ, ap, ◌≤◌, ◌≡◌, ◌≢◌, refl, true, List, [], ◌∷◌, ◌++◌, Result, ok, err, length, replicate, arith,
  ◌=?◌, ◌↔◌,
}
use sqnr.Text.Utf8.{codes, as_bytes, from_utf8}
use sqnr.Text.Format.{show}
use sqnr.Core.Error.{Error, malformed, bad_signature}
use sqnr.Core.Bytes.{to_be_bytes, from_be_bytes}
use sqnr.Core.Key.{PubKey}
use sqnr.Core.Reader.{repeat, array, u32, bytes, string, checked_utf8, finish, new}
use sqnr.Core.Reader
use sqnr.Core.Tx.{
  Transaction, put_bytes, encode_detail, encode_op, encode_ops, encode, decode_op, decode_from,
  signing_bytes,
}
use sqnr.Core.Tx.Valid.{IsTransaction}
use sqnr.Core.Tx.Injective.{FitsTransaction}
use sqnr.Core.Signed.{
  SignedTransaction, software_signer, create, verify, encode_signed, decode_signed, decode,
}
use sqnr.Core.Signed.Wire.{IsSigned, decode-encode_signed, decode_canonical}
use sqnr.Core.Signed.Largest.{largest, length-encode_signed-largest}
use sqnr.Core.Signed.Verify
use sqnr.Tests.Toy.{toy, toy-IsLawful, fit, weak_digest}

abbrev pub server : PubKey
server = record { raw = replicate 32 1 }

abbrev pub batch : Transaction
batch = record {
  server = server;
  nonce = replicate 32 3;
  ops =
      record { summary = codes "Enable the whitelist"; detail = []; payload = 1 ∷ [] }
      ∷ record {
        summary = codes "Add a peer";
        detail = codes "peer: é€" ∷ [];
        payload = 3 ∷ 5 ∷ 5 ∷ 5 ∷ [];
      }
      ∷ [];
}

pub batch-IsTransaction : IsTransaction batch
unfolding as_bytes
batch-IsTransaction = omega arith

abbrev seed : List ℕ
seed = replicate 32 9

abbrev pub signed : SignedTransaction
signed = record {
  transaction = batch;
  admin = record { raw = replicate 32 9 };
  signature = replicate 64 7;
}

pub signed-IsSigned : IsSigned signed
unfolding as_bytes
signed-IsSigned = omega arith

-- All that a run of the codec computes through.
unfoldable pub run_decode : List ℕ → Result SignedTransaction Error
unfolding decode decode_signed decode_from decode_op repeat string bytes array u32 checked_utf8
    finish new Reader.take from_be_bytes from_utf8
run_decode = decode

unfoldable pub run_encode : SignedTransaction → List ℕ
unfolding encode_signed encode encode_ops encode_op encode_detail put_bytes to_be_bytes as_bytes
run_encode = encode_signed

round_trip : run_decode (run_encode signed) ≡ ok signed
unfolding run_decode run_encode
round_trip = refl

trailing : run_decode (run_encode signed ++ (0 ∷ [])) ≡ err (malformed (codes "1 trailing bytes"))
unfolding run_decode run_encode show
trailing = refl

decode-encode_signed_example : decode (encode_signed signed) ≡ ok signed
decode-encode_signed_example = decode-encode_signed signed signed-IsSigned

decode_canonical_example : (run_encode signed ≡ encode_signed signed) × IsSigned signed
decode_canonical_example =
    decode_canonical (run_encode signed) signed (unfold run_encode in omega arith)
      (unfold run_encode in omega arith) (unfold run_decode run_encode in refl)

length-encode_signed-largest_example :
    (length (encode_signed signed) ≤ length (encode_signed largest))
    × IsSigned largest
    × (length (encode_signed largest) ≡ 12_854_180)
length-encode_signed-largest_example = length-encode_signed-largest signed signed-IsSigned

-- The batch with one payload changed.
abbrev tampered : Transaction
tampered = record batch { nonce = replicate 32 4 }

batch-Fits : FitsTransaction batch
unfolding as_bytes
batch-Fits = omega arith

tampered-Fits : FitsTransaction tampered
unfolding as_bytes
tampered-Fits = omega arith

nonces_differ : ◌≡◌ {A = List ℕ} (replicate 32 4) (replicate 32 3) → ⊥
nonces_differ e = cc

tampered_ne : tampered ≢ batch
tampered_ne e = nonces_differ (ap (λ (t : Transaction). t.nonce) e)

decode-create_example :
    let s = create toy batch (software_signer toy seed) in
    (decode (encode_signed s) ≡ ok s) × (s.transaction ≡ batch) × (verify toy s server ≡ ok tt)
decode-create_example = Verify.decode-create toy toy-IsLawful seed batch batch-IsTransaction

signing_bytes-injective_example : batch ≡ batch
signing_bytes-injective_example =
    Verify.signing_bytes-injective toy batch batch batch-Fits batch-Fits (λ e. refl) refl

verify_iff_example : (verify toy (create toy batch (software_signer toy seed)) server ≡ ok tt) ↔ (
    (server ≡ server)
    × ((vk : List ℕ) × (toy.from_bytes (replicate 32 9) ≡ ok vk)
        × (toy.verify vk
              (signing_bytes toy.digest batch)
              (toy.sign seed (signing_bytes toy.digest batch))
            ≡ true)))
unfolding create software_signer fit
verify_iff_example = Verify.verify_iff toy (create toy batch (software_signer toy seed)) server

digests_differ : toy.digest (encode tampered) ≡ toy.digest (encode batch) → ⊥
unfolding run_encode fit weak_digest
digests_differ e = cc

not_forged :
    toy.verify
        (toy.verifying_key seed)
        (signing_bytes toy.digest tampered)
        (toy.sign seed (signing_bytes toy.digest batch))
      ≡ true
    → ⊥
unfolding run_encode fit weak_digest signing_bytes ◌=?◌
not_forged e = cc

verify_tampered_example :
    verify toy
      (record (create toy batch (software_signer toy seed)) { transaction = tampered })
      server
    ≡ err bad_signature
verify_tampered_example =
    Verify.verify_tampered toy toy-IsLawful seed batch tampered batch-Fits tampered-Fits
      (λ e. absurd (digests_differ e)) (λ e. absurd (not_forged e)) tampered_ne
