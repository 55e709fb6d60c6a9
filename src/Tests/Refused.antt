-- ===== src/Tests/Refused.antt =====
-- Messages that the decoder refuses.
use sqnr.Base.{
  List, ℕ, take, drop, ◌-◌, ◌≢◌, take-append-drop, ◌<◌, ◌^◌, ◌≡◌, [], ◌∷◌, ◌++◌, err, length,
  replicate, arith,
}
use sqnr.Text.Utf8.{codes, as_bytes}
use sqnr.Text.Format.{show}
use sqnr.Core.Error.{malformed}
use sqnr.Core.Bytes.{IsBytes}
use sqnr.Core.Signed.{SignedTransaction, encode_signed, decode}
use sqnr.Core.Signed.Limits.{decode-problem}
use sqnr.Core.Tx.Injective.{FitsTransaction}
use sqnr.Core.Signed.Cuts.{decode-cut, decode-extended}
use sqnr.Tests.Wire.{server, signed, signed-IsSigned, run_encode}

-- One operation more than the decoder takes.
abbrev crowd : SignedTransaction
crowd = record {
  transaction = record {
    server = server;
    nonce = replicate 32 3;
    ops = replicate 65 (record { summary = []; detail = []; payload = 1 ∷ [] });
  };
  admin = record { raw = replicate 32 9 };
  signature = replicate 64 7;
}

crowd-IsBytes : IsBytes (encode_signed crowd)
unfolding run_encode
crowd-IsBytes = omega arith

crowd_small : length (encode_signed crowd) < 2 ^ 63
unfolding run_encode
crowd_small = omega arith

crowd-Fits : FitsTransaction crowd.transaction
unfolding as_bytes
crowd-Fits = omega arith

decode-problem_example :
    decode (encode_signed crowd) ≡ err (malformed (codes "too many ops: " ++ show 65))
decode-problem_example =
    decode-problem crowd crowd-Fits (omega arith) (omega arith) crowd-IsBytes crowd_small

-- The message without its last byte.
abbrev cut : List ℕ
cut = take (length (encode_signed signed) - 1) (encode_signed signed)

abbrev missing : List ℕ
missing = drop (length (encode_signed signed) - 1) (encode_signed signed)

missing_some : missing ≢ []
unfolding run_encode
missing_some e = cc

decode-cut_example : decode cut ≡ err (malformed (codes "unexpected end of message"))
decode-cut_example =
    decode-cut signed cut missing signed-IsSigned (take-append-drop _ (encode_signed signed))
      missing_some

extended_small : length (encode_signed signed ++ (0 ∷ 0 ∷ [])) < 2 ^ 63
unfolding run_encode
extended_small = omega arith

decode-extended_example :
    decode (encode_signed signed ++ (0 ∷ 0 ∷ []))
    ≡ err (malformed (show 2 ++ codes " trailing bytes"))
decode-extended_example =
    decode-extended signed (0 ∷ 0 ∷ []) signed-IsSigned (λ e. cc) (omega arith) extended_small
