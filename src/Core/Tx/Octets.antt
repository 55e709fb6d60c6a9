-- ===== src/Core/Tx/Octets.antt =====
-- An encoding is made of bytes.
use sqnr.Base.{ℕ, List, [], ◌∷◌, ◌++◌, length, All, All-append}
use sqnr.Text.Utf8.{Text, as_bytes}
use sqnr.Text.Utf8Laws.{as_bytes-All}
use sqnr.Core.Bytes.{IsByte, IsBytes, to_be_bytes-IsArray}
use sqnr.Core.Tx.{Operation, Transaction, put_bytes, encode_detail, encode_op, encode_ops, encode}
use sqnr.Core.Tx.Valid.{IsLine, IsOperation, IsTransaction}

-- Two parts, each made of bytes.
pub join : (a b : List ℕ) → IsBytes a → IsBytes b → IsBytes (a ++ b)
join = All-append IsByte

put_bytes-IsBytes : (b : List ℕ) → IsBytes b → IsBytes (put_bytes b)
unfolding put_bytes
put_bytes-IsBytes b h = join _ b (to_be_bytes-IsArray (length b)).bytes h

encode_detail-IsBytes : (l : List Text) → All IsLine l → IsBytes (encode_detail l)
unfolding encode_detail
encode_detail-IsBytes [] h = tt
encode_detail-IsBytes (s ∷ l) h =
    join _ (encode_detail l) (put_bytes-IsBytes (as_bytes s) (as_bytes-All s h.0.text))
      (encode_detail-IsBytes l h.1)

encode_op-IsBytes : (op : Operation) → IsOperation op → IsBytes (encode_op op)
unfolding encode_op
encode_op-IsBytes op h =
    join _ _ (put_bytes-IsBytes (as_bytes op.summary) (as_bytes-All op.summary h.summary.text)) (
      join _ _ (to_be_bytes-IsArray (length op.detail)).bytes (
        join _ _ (encode_detail-IsBytes op.detail h.detail)
          (put_bytes-IsBytes op.payload h.payload)))

encode_ops-IsBytes : (ops : List Operation) → All IsOperation ops → IsBytes (encode_ops ops)
unfolding encode_ops
encode_ops-IsBytes [] h = tt
encode_ops-IsBytes (op ∷ ops) h = join _ _ (encode_op-IsBytes op h.0) (encode_ops-IsBytes ops h.1)

pub encode-IsBytes : (t : Transaction) → IsTransaction t → IsBytes (encode t)
unfolding encode
encode-IsBytes t h = join _ _ h.server.bytes (
    join _ _ h.nonce.bytes
      (join _ _ (to_be_bytes-IsArray (length t.ops)).bytes (encode_ops-IsBytes t.ops h.ops)))
