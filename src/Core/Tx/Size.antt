-- ===== src/Core/Tx/Size.antt =====
-- How long an encoding is.
use sqnr.Base.{ℕ, ◌+◌, ◌*◌, ◌≤◌, ◌≡◌, List, [], ◌∷◌, ◌++◌, length, length-append, All, arith}
use sqnr.Text.Utf8.{Text, as_bytes}
use sqnr.Core.Bytes.{to_be_bytes, to_be_bytes-IsArray}
use sqnr.Core.Tx.{Operation, Transaction, put_bytes, encode_detail, encode_op, encode_ops, encode}
use sqnr.Core.Tx.Valid.{IsLine, IsOperation, IsTransaction}

pub length-put_bytes : (b : List ℕ) → length (put_bytes b) ≡ 4 + length b
unfolding put_bytes
length-put_bytes b =
    omega (arith, length-append (to_be_bytes (length b)) b, (to_be_bytes-IsArray (length b)).size)

length-encode_detail : (l : List Text) → All IsLine l → length (encode_detail l) ≤ length l * 4100
unfolding encode_detail
length-encode_detail [] h = omega arith
length-encode_detail (s ∷ l) h = omega (
  arith,
  length-append (put_bytes (as_bytes s)) (encode_detail l),
  length-put_bytes (as_bytes s),
  h.0.short,
  length-encode_detail l h.1,
)

-- 4 + 4096, 4 + 32 * 4100 and 4 + 65536.
length-encode_op : (op : Operation) → IsOperation op → length (encode_op op) ≤ 200_844
unfolding encode_op
length-encode_op op h = omega (
  arith,
  length-append (put_bytes (as_bytes op.summary))
      (to_be_bytes (length op.detail) ++ (encode_detail op.detail ++ put_bytes op.payload)),
  length-append (to_be_bytes (length op.detail)) (encode_detail op.detail ++ put_bytes op.payload),
  length-append (encode_detail op.detail) (put_bytes op.payload),
  length-put_bytes (as_bytes op.summary),
  length-put_bytes op.payload,
  (to_be_bytes-IsArray (length op.detail)).size,
  length-encode_detail op.detail h.detail,
  h.summary.short,
  h.few,
  h.small,
)

length-encode_ops :
    (ops : List Operation) → All IsOperation ops → length (encode_ops ops) ≤ length ops * 200_844
unfolding encode_ops
length-encode_ops [] h = omega arith
length-encode_ops (op ∷ ops) h = omega (
  arith,
  length-append (encode_op op) (encode_ops ops),
  length-encode_op op h.0,
  length-encode_ops ops h.1,
)

pub length-encode : (t : Transaction) → IsTransaction t → length (encode t) ≤ 12_854_084
unfolding encode
length-encode t h = omega (
  arith,
  length-append t.server.raw (t.nonce ++ (to_be_bytes (length t.ops) ++ encode_ops t.ops)),
  length-append t.nonce (to_be_bytes (length t.ops) ++ encode_ops t.ops),
  length-append (to_be_bytes (length t.ops)) (encode_ops t.ops),
  (to_be_bytes-IsArray (length t.ops)).size,
  length-encode_ops t.ops h.ops,
  h.server.size,
  h.nonce.size,
  h.few,
)
