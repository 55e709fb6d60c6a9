-- ===== src/Core/Tx/Limits.antt =====
-- The limits of the decoder, in the order in which it meets them.
use sqnr.Base.{Option, none, ◌++◌, length, ltb}
use sqnr.Text.Utf8.{Text, codes, as_bytes}
use sqnr.Text.Format.{show}
use sqnr.Core.Bytes.{to_be_bytes}
use sqnr.Core.Reader.{repeat, array, u32, bytes, string}
use sqnr.Core.Reader.Reads.{print_all, pure-Reads, array-Reads, u32-Reads}
use sqnr.Core.Reader.Decides.{
  Decides, first, first_of, exceeds, too_long, >>=-Decides, >>=-Decides_last, test-Decides,
  bytes-Decides, string-Decides, repeat-Decides,
}
use sqnr.Core.Tx.{
  Operation, Transaction, max_ops, max_detail, max_str, max_payload, put_bytes, encode_op, encode,
  decode_op, decode_from,
}
use sqnr.Core.Tx.RoundTrip.{put_line, encode_detail-print_all, encode_ops-print_all}
use sqnr.Core.Tx.Injective.{FitsLine, FitsOperation, FitsTransaction}

-- The first limit that a text, an operation, a transaction goes beyond, in the words of the decoder.
abbrev pub line_problem : Text → Option Text
line_problem s = too_long max_str (as_bytes s)

abbrev pub op_problem : Operation → Option Text
op_problem op = first (line_problem op.summary) (
    first
      (exceeds (ltb max_detail (length op.detail))
        (codes "too many detail lines: " ++ show (length op.detail)))
      (first (first_of line_problem op.detail) (too_long max_payload op.payload)))

abbrev pub problem : Transaction → Option Text
problem t =
    first (exceeds (ltb max_ops (length t.ops)) (codes "too many ops: " ++ show (length t.ops)))
      (first_of op_problem t.ops)

line-Decides : (s : Text) → FitsLine s → Decides (string max_str) (put_line s) s (line_problem s)
unfolding put_bytes
line-Decides s h = string-Decides max_str s h.text h.prefix

pub decode_op-Decides :
    (op : Operation) → FitsOperation op → Decides decode_op (encode_op op) op (op_problem op)
unfolding decode_op encode_op
decode_op-Decides op h =
    >>=-Decides (string max_str) _ (put_line op.summary) _ op.summary op (line_problem op.summary) _
      (line-Decides op.summary h.summary)
      (>>=-Decides u32 _ (to_be_bytes (length op.detail)) _ (length op.detail) op none _
        (u32-Reads (length op.detail) h.lines)
        (rw (encode_detail-print_all op.detail) (
          test-Decides (ltb max_detail (length op.detail)) _ _ _ op _ (
            >>=-Decides (repeat (length op.detail) (string max_str)) _
              (print_all put_line op.detail) _ op.detail op (first_of line_problem op.detail) _
              (repeat-Decides (string max_str) put_line FitsLine line_problem line-Decides op.detail
                h.detail)
              (>>=-Decides_last (bytes max_payload) _ (put_bytes op.payload) op.payload op
                (too_long max_payload op.payload)
                (unfold put_bytes in bytes-Decides max_payload op.payload h.payload)
                (pure-Reads op))))))

pub decode_from-Decides :
    (t : Transaction) → FitsTransaction t → Decides decode_from (encode t) t (problem t)
unfolding decode_from encode
decode_from-Decides t h =
    >>=-Decides (array 32) _ t.server.raw _ t.server.raw t none _
      (array-Reads 32 t.server.raw h.server)
      (>>=-Decides (array 32) _ t.nonce _ t.nonce t none _ (array-Reads 32 t.nonce h.nonce) (
        >>=-Decides u32 _ (to_be_bytes (length t.ops)) _ (length t.ops) t none _
          (u32-Reads (length t.ops) h.count)
          (rw (encode_ops-print_all t.ops) (
            test-Decides (ltb max_ops (length t.ops)) _ _ _ t _ (
              >>=-Decides_last (repeat (length t.ops) decode_op) _ (print_all encode_op t.ops) t.ops
                t _
                (repeat-Decides decode_op encode_op FitsOperation op_problem decode_op-Decides t.ops
                  h.ops)
                (pure-Reads t))))))
