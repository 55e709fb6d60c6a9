-- ===== src/Core/Tx/RoundTrip.antt =====
-- The decoder reads back every transaction within its bounds.
use sqnr.Base.{ℕ, ◌≡◌, refl, List, [], ◌∷◌, length, arith, le→ltb_not}
use sqnr.Text.Utf8.{Text, as_bytes}
use sqnr.Core.Bytes.{to_be_bytes}
use sqnr.Core.Reader.{repeat, array, u32, bytes, string}
use sqnr.Core.Reader.Reads.{
  Reads, print_all, pure-Reads, >>=-Reads, >>=-Reads_last, array-Reads, u32-Reads, bytes-Reads,
  string-Reads, repeat-Reads,
}
use sqnr.Core.Tx.{
  Operation, Transaction, max_ops, max_detail, max_str, max_payload, put_bytes, encode_detail,
  encode_op, encode_ops, encode, decode_op, decode_from,
}
use sqnr.Core.Tx.Valid.{IsLine, IsOperation, IsTransaction}

abbrev pub put_line : Text → List ℕ
put_line s = put_bytes (as_bytes s)

pub encode_detail-print_all : (l : List Text) → encode_detail l ≡ print_all put_line l
unfolding encode_detail
encode_detail-print_all [] = refl
encode_detail-print_all (s ∷ l) = rw (encode_detail-print_all l)

pub encode_ops-print_all : (l : List Operation) → encode_ops l ≡ print_all encode_op l
unfolding encode_ops
encode_ops-print_all [] = refl
encode_ops-print_all (op ∷ l) = rw (encode_ops-print_all l)

pub string-Reads_line : (s : Text) → IsLine s → Reads (string max_str) (put_line s) s
unfolding put_bytes
string-Reads_line s h = string-Reads max_str s h.text h.short (omega arith)

-- One operation is read back, whatever follows it.
pub decode_op-Reads : (op : Operation) → IsOperation op → Reads decode_op (encode_op op) op
unfolding decode_op encode_op
decode_op-Reads op h =
    >>=-Reads (string max_str) _ (put_line op.summary) _ op.summary op
      (string-Reads_line op.summary h.summary)
      (>>=-Reads u32 _ (to_be_bytes (length op.detail)) _ (length op.detail) op
        (u32-Reads (length op.detail) (omega (arith, h.few)))
        (rw (le→ltb_not max_detail (length op.detail) h.few, encode_detail-print_all op.detail)
          (>>=-Reads (repeat (length op.detail) (string max_str)) _ (print_all put_line op.detail) _
            op.detail op
            (repeat-Reads (string max_str) put_line IsLine string-Reads_line op.detail h.detail)
            (>>=-Reads_last (bytes max_payload) _ (put_bytes op.payload) op.payload op
              (unfold put_bytes in bytes-Reads max_payload op.payload h.small (omega arith))
              (pure-Reads op)))))

-- A transaction is read back, whatever follows it.
pub decode_from-Reads : (t : Transaction) → IsTransaction t → Reads decode_from (encode t) t
unfolding decode_from encode
decode_from-Reads t h =
    >>=-Reads (array 32) _ t.server.raw _ t.server.raw t (array-Reads 32 t.server.raw h.server) (
      >>=-Reads (array 32) _ t.nonce _ t.nonce t (array-Reads 32 t.nonce h.nonce) (
        >>=-Reads u32 _ (to_be_bytes (length t.ops)) _ (length t.ops) t
          (u32-Reads (length t.ops) (omega (arith, h.few)))
          (rw (le→ltb_not max_ops (length t.ops) h.few, encode_ops-print_all t.ops)
            (>>=-Reads_last (repeat (length t.ops) decode_op) _ (print_all encode_op t.ops) t.ops t
              (repeat-Reads decode_op encode_op IsOperation decode_op-Reads t.ops h.ops)
              (pure-Reads t)))))
