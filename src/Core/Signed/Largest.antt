-- ===== src/Core/Signed/Largest.antt =====
-- The largest message that the decoder takes.
use sqnr.Base.{
  ℕ, zero, suc, ◌+◌, ◌*◌, ◌≤◌, ◌≡◌, refl, ap, ◌++◌, length, length-append, replicate,
  length-replicate, All-replicate, inl, arith,
}
use sqnr.Text.Utf8.{Text, IsScalar, as_bytes}
use sqnr.Core.Bytes.{zeros-IsArray, to_be_bytes, to_be_bytes-IsArray}
use sqnr.Core.Tx.{Operation, put_bytes, encode_detail, encode_op, encode_ops, encode}
use sqnr.Core.Tx.Valid.{IsLine, IsOperation}
use sqnr.Core.Tx.Size.{length-put_bytes}
use sqnr.Core.Signed.{SignedTransaction, encode_signed}
use sqnr.Core.Signed.Wire.{IsSigned, length-encode_signed}

-- `n` letters `a`, of one byte each.
letters : ℕ → Text
letters n = replicate n b'a'

length-letters : (n : ℕ) → length (as_bytes (letters n)) ≡ n
unfolding letters as_bytes
length-letters zero = refl
length-letters (suc n) = ap suc (length-letters n)

length-encode_detail-replicate :
    (n : ℕ) (s : Text) → length (encode_detail (replicate n s)) ≡ n * (4 + length (as_bytes s))
unfolding encode_detail
length-encode_detail-replicate zero s = omega arith
length-encode_detail-replicate (suc n) s = omega (
  arith,
  length-encode_detail-replicate n s,
  length-append (put_bytes (as_bytes s)) (encode_detail (replicate n s)),
  length-put_bytes (as_bytes s),
)

length-encode_ops-replicate :
    (n : ℕ) (op : Operation) → length (encode_ops (replicate n op)) ≡ n * length (encode_op op)
unfolding encode_ops
length-encode_ops-replicate zero op = omega arith
length-encode_ops-replicate (suc n) op = omega (
  arith,
  length-encode_ops-replicate n op,
  length-append (encode_op op) (encode_ops (replicate n op)),
)

-- An operation at its limits, and a message of as many of them as there can be.
pub full_op : Operation
unfolding letters
full_op = record {
  summary = letters 4096;
  detail = replicate 32 (letters 4096);
  payload = replicate 65536 0;
}

pub largest : SignedTransaction
largest = record {
  transaction = record {
    server = record { raw = replicate 32 0 };
    nonce = replicate 32 0;
    ops = replicate 64 full_op;
  };
  admin = record { raw = replicate 32 0 };
  signature = replicate 64 0;
}

length-encode_op_full : length (encode_op full_op) ≡ 200_844
unfolding full_op encode_op
length-encode_op_full = omega (
  arith,
  length-append (put_bytes (as_bytes (letters 4096))) (
      to_be_bytes (length full_op.detail)
      ++ (encode_detail full_op.detail ++ put_bytes full_op.payload)),
  length-append (to_be_bytes (length full_op.detail))
      (encode_detail full_op.detail ++ put_bytes full_op.payload),
  length-append (encode_detail full_op.detail) (put_bytes full_op.payload),
  length-put_bytes (as_bytes (letters 4096)),
  length-put_bytes full_op.payload,
  (to_be_bytes-IsArray (length full_op.detail)).size,
  length-encode_detail-replicate 32 (letters 4096),
  length-letters 4096,
  length-replicate {A = ℕ} 65536 0,
)

letters-IsLine : IsLine (letters 4096)
letters-IsLine = record {
  text = unfold letters in All-replicate IsScalar 4096 b'a' (omega arith, inl (omega arith));
  short = omega (arith, length-letters 4096);
}

full_op-IsOperation : IsOperation full_op
unfolding full_op
full_op-IsOperation = record {
  summary = letters-IsLine;
  detail = All-replicate IsLine 32 (letters 4096) letters-IsLine;
  few = omega (arith, length-replicate 32 (letters 4096));
  payload = (zeros-IsArray 65536).bytes;
  small = omega (arith, (zeros-IsArray 65536).size);
}

largest-IsSigned : IsSigned largest
unfolding largest
largest-IsSigned = record {
  transaction = record {
    server = zeros-IsArray 32;
    nonce = zeros-IsArray 32;
    ops = All-replicate IsOperation 64 full_op full_op-IsOperation;
    few = omega (arith, length-replicate 64 full_op);
  };
  admin = zeros-IsArray 32;
  signature = zeros-IsArray 64;
}

length-encode_signed_full : length (encode_signed largest) ≡ 12_854_180
unfolding encode_signed encode largest
length-encode_signed_full = omega (
  arith,
  length-append (encode largest.transaction) (replicate 32 0 ++ replicate 64 0),
  length-append (replicate 32 0)
      (replicate 32 0 ++ (to_be_bytes 64 ++ encode_ops (replicate 64 full_op))),
  length-append (replicate 32 0) (to_be_bytes 64 ++ encode_ops (replicate 64 full_op)),
  length-append (to_be_bytes 64) (encode_ops (replicate 64 full_op)),
  length-append {A = ℕ} (replicate 32 0) (replicate 64 0),
  (to_be_bytes-IsArray 64).size,
  length-encode_ops-replicate 64 full_op,
  length-encode_op_full,
)

-- No message within the decoder's bounds is longer than the largest one, which is within them too and
-- has 12,854,180 bytes.
pub length-encode_signed-largest :
    (s : SignedTransaction)
    → IsSigned s
    → (length (encode_signed s) ≤ length (encode_signed largest))
      × IsSigned largest
      × (length (encode_signed largest) ≡ 12_854_180)
length-encode_signed-largest s h = (
  omega (arith, length-encode_signed s h, length-encode_signed_full),
  largest-IsSigned,
  length-encode_signed_full,
)
