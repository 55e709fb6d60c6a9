-- ===== src/Core/Signed/Refusals.antt =====
-- What `SignedTransaction::decode` refuses, and how.
use sqnr.Base.{
  ℕ, ◌<◌, ◌^◌, ◌≡◌, ◌∙◌, List, ◌++◌, err, Result-cases, inl, inr, length, append_assoc, lt→ltb,
}
use sqnr.Text.Utf8.{Text, codes}
use sqnr.Text.Format.{show}
use sqnr.Core.Error.{Error, malformed}
use sqnr.Core.Bytes.{IsBytes, IsArray, u32_mod, to_be_bytes}
use sqnr.Core.Reader.{>>=-ok, >>=-err, array, u32, new}
use sqnr.Core.Reader.View.{IsValid, new-IsValid}
use sqnr.Core.Reader.Reads.{array-Reads, u32-Reads}
use sqnr.Core.Reader.Fails.{FailsMalformed, fails_rules}
use sqnr.Core.Tx.{max_ops, encode, encode_ops, decode_op, decode_from}
use sqnr.Core.Signed.Wire.{rest-new, decode_of_failure}
use sqnr.Core.Signed.{SignedTransaction, encode_signed, decode_signed, decode}

decode_op-FailsMalformed : FailsMalformed decode_op
unfolding decode_op
decode_op-FailsMalformed = search fails_rules depth 9

decode_from-FailsMalformed : FailsMalformed decode_from
unfolding decode_from
decode_from-FailsMalformed = search (fails_rules, decode_op-FailsMalformed) depth 9

decode_signed-FailsMalformed : FailsMalformed decode_signed
unfolding decode_signed
decode_signed-FailsMalformed = search (fails_rules, decode_from-FailsMalformed) depth 9

-- Whatever bytes the decoder refuses, the error is `Malformed`: a server never takes a broken message
-- for a bad signature, a wrong server or a bad key.
decode-malformed : (bs : List ℕ) (e : Error) → decode bs ≡ err e → (s : Text) × (e ≡ malformed s)
unfolding decode
decode-malformed bs e h = elim (Result-cases (decode_signed (new bs))) [
  | inl ((s, r), q) ↦ cc (rw (q, decode) at h)
  | inr (x, q) ↦ decode_signed-FailsMalformed.at (new bs) e (cc (q, rw (q, decode) at h))
]

encode_signed_regroup :
    (s : SignedTransaction)
    → encode_signed s
      ≡ s.transaction.server.raw
        ++ (s.transaction.nonce
            ++ (to_be_bytes (length s.transaction.ops)
                ++ (encode_ops s.transaction.ops ++ (s.admin.raw ++ s.signature))))
unfolding encode_signed encode
encode_signed_regroup s = simp append_assoc

-- A batch of more than 64 operations can be encoded and signed, but every decoder refuses it, naming
-- their number.
decode_too_many_ops :
    (s : SignedTransaction)
    → IsArray 32 s.transaction.server.raw
    → IsArray 32 s.transaction.nonce
    → max_ops < length s.transaction.ops
    → length s.transaction.ops < u32_mod
    → IsBytes (encode_signed s)
    → length (encode_signed s) < 2 ^ 63
    → decode (encode_signed s)
      ≡ err (malformed (codes "too many ops: " ++ show (length s.transaction.ops)))
unfolding decode_signed decode_from
decode_too_many_ops s hs hn many fits hb hl =
    let t = s.transaction in
    let n : ℕ = length t.ops in
    let v : IsValid (new (encode_signed s)) = new-IsValid (encode_signed s) hl hb in
    let (r1, e1, v1, left1) =
      array-Reads 32 t.server.raw hs (new (encode_signed s)) _ v
        (rest-new (encode_signed s) ∙ encode_signed_regroup s) in
    let (r2, e2, v2, left2) = array-Reads 32 t.nonce hn r1 _ v1 left1 in
    let (r3, e3, v3, left3) = u32-Reads n fits r2 _ v2 left2 in
    decode_of_failure (encode_signed s) _ (
      >>=-err decode_from _ (
        >>=-ok (array 32) _ e1
        ∙ >>=-ok (array 32) _ e2
        ∙ >>=-ok u32 _ e3
        ∙ rw (lt→ltb max_ops n many)))
