-- ===== src/Core/Tx/Cuts.antt =====
-- What the decoder says of a transaction of which the end is missing.
use sqnr.Base.{length, arith, le→ltb_not}
use sqnr.Text.Utf8.{Text}
use sqnr.Core.Bytes.{to_be_bytes}
use sqnr.Core.Reader.{repeat, array, u32, bytes, string}
use sqnr.Core.Reader.Reads.{print_all, array-Reads, u32-Reads, repeat-Reads}
use sqnr.Core.Reader.Cuts.{
  Cuts, >>=-Cuts, >>=-Cuts_last, array-Cuts, u32-Cuts, bytes-Cuts, string-Cuts, repeat-Cuts,
}
use sqnr.Core.Tx.{
  Operation, Transaction, max_ops, max_detail, max_str, max_payload, put_bytes, encode_op, encode,
  decode_op, decode_from,
}
use sqnr.Core.Tx.Valid.{IsLine, IsOperation, IsTransaction}
use sqnr.Core.Tx.RoundTrip.{
  put_line, encode_detail-print_all, encode_ops-print_all, string-Reads_line, decode_op-Reads,
}

line-Cuts : (s : Text) → IsLine s → Cuts (string max_str) (put_line s)
unfolding put_bytes
line-Cuts s h = string-Cuts max_str s h.short (omega arith)

decode_op-Cuts : (op : Operation) → IsOperation op → Cuts decode_op (encode_op op)
unfolding decode_op encode_op
decode_op-Cuts op h =
    >>=-Cuts (string max_str) _ (put_line op.summary) _ op.summary
      (string-Reads_line op.summary h.summary) (line-Cuts op.summary h.summary)
      (>>=-Cuts u32 _ (to_be_bytes (length op.detail)) _ (length op.detail)
        (u32-Reads (length op.detail) (omega (arith, h.few))) (u32-Cuts (length op.detail))
        (rw (le→ltb_not max_detail (length op.detail) h.few, encode_detail-print_all op.detail)
          (>>=-Cuts (repeat (length op.detail) (string max_str)) _ (print_all put_line op.detail) _
            op.detail
            (repeat-Reads (string max_str) put_line IsLine string-Reads_line op.detail h.detail)
            (repeat-Cuts (string max_str) put_line IsLine string-Reads_line line-Cuts op.detail
              h.detail)
            (>>=-Cuts_last (bytes max_payload) _ (put_bytes op.payload)
              (unfold put_bytes in bytes-Cuts max_payload op.payload h.small (omega arith))))))

pub decode_from-Cuts : (t : Transaction) → IsTransaction t → Cuts decode_from (encode t)
unfolding decode_from encode
decode_from-Cuts t h =
    >>=-Cuts (array 32) _ t.server.raw _ t.server.raw (array-Reads 32 t.server.raw h.server)
      (array-Cuts 32 t.server.raw h.server (omega arith))
      (>>=-Cuts (array 32) _ t.nonce _ t.nonce (array-Reads 32 t.nonce h.nonce)
        (array-Cuts 32 t.nonce h.nonce (omega arith))
        (>>=-Cuts u32 _ (to_be_bytes (length t.ops)) _ (length t.ops)
          (u32-Reads (length t.ops) (omega (arith, h.few))) (u32-Cuts (length t.ops))
          (rw (le→ltb_not max_ops (length t.ops) h.few, encode_ops-print_all t.ops)
            (>>=-Cuts_last (repeat (length t.ops) decode_op) _ (print_all encode_op t.ops) (
              repeat-Cuts decode_op encode_op IsOperation decode_op-Reads decode_op-Cuts t.ops
                h.ops)))))
