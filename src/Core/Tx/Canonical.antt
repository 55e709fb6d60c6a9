-- ===== src/Core/Tx/Canonical.antt =====
-- What decodes is the encoding of what it decodes to, and within the bounds.
use sqnr.Base.{◌≡◌, append-nil, arith, inl, inr, ltb, Bool-cases}
use sqnr.Core.Reader.{repeat, array, u32, bytes, string}
use sqnr.Core.Reader.Takes.{
  Takes, pure-Takes, fail-Takes, >>=-Takes, array-Takes, u32-Takes, bytes-Takes, string-Takes,
  repeat-Takes,
}
use sqnr.Core.Tx.{
  max_ops, max_detail, max_str, max_payload, put_bytes, encode_op, encode, decode_op, decode_from,
}
use sqnr.Core.Tx.Valid.{IsLine, IsOperation, IsTransaction}
use sqnr.Core.Tx.RoundTrip.{put_line, encode_detail-print_all, encode_ops-print_all}

string-Takes-IsLine : Takes (string max_str) (λ s w. (w ≡ put_line s) × IsLine s)
unfolding put_bytes
string-Takes-IsLine r s r' v e =
    let (w, cut, h, vr) = string-Takes max_str r s r' v e in
    (w, cut, (h.0, record { text = h.2; short = h.1 }), vr)

-- An operation that decodes stood in the input in its one encoding.
decode_op-Takes : Takes decode_op (λ op w. (w ≡ encode_op op) × IsOperation op)
unfolding decode_op encode_op put_bytes
decode_op-Takes = >>=-Takes (string max_str) _ _ _ string-Takes-IsLine λ summary w1 h1.
    >>=-Takes u32 _ _ _ u32-Takes λ d w2 h2. elim (Bool-cases (ltb max_detail d)) [
      | inl over ↦ rw over (fail-Takes _ _)
      | inr fits ↦ rw fits (
          >>=-Takes (repeat d (string max_str)) _ _ _
            (repeat-Takes (string max_str) put_line IsLine string-Takes-IsLine d)
            λ detail w3 h3.
              >>=-Takes (bytes max_payload) _ _ _ (bytes-Takes max_payload) λ payload w4 h4.
                pure-Takes _ _ (
                  cc (append-nil w4, h1.0, h2.0, h3.0, h3.1, h4.0, encode_detail-print_all detail),
                  record {
                    summary = h1.1;
                    detail = h3.2;
                    few = ground (arith, h3.1);
                    payload = h4.3;
                    small = h4.1;
                  },
                ))
    ]

-- A transaction that decodes stood in the input in its one encoding.
pub decode_from-Takes : Takes decode_from (λ t w. (w ≡ encode t) × IsTransaction t)
unfolding decode_from encode
decode_from-Takes = >>=-Takes (array 32) _ _ _ (array-Takes 32) λ server w1 h1.
    >>=-Takes (array 32) _ _ _ (array-Takes 32) λ nonce w2 h2.
      >>=-Takes u32 _ _ _ u32-Takes λ n w3 h3. elim (Bool-cases (ltb max_ops n)) [
        | inl over ↦ rw over (fail-Takes _ _)
        | inr fits ↦ rw fits (
            >>=-Takes (repeat n decode_op) _ _ _
              (repeat-Takes decode_op encode_op IsOperation decode_op-Takes n)
              λ ops w4 h4. pure-Takes _ _ (
                cc (append-nil w4, h1.0, h2.0, h3.0, h4.0, h4.1, encode_ops-print_all ops),
                record { server = h1.1; nonce = h2.1; ops = h4.2; few = ground (arith, h4.1) },
              ))
      ]
