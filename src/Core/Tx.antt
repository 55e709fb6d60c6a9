-- ===== src/Core/Tx.antt =====
-- crates/sqnr-core/src/tx.rs: operations and transactions, their encoding and its decoder.
pub mod Cuts
pub mod Valid
pub mod RoundTrip
pub mod Canonical
pub mod Size
pub mod Octets
pub mod Injective
pub mod Limits
use sqnr.Base.{
  ℕ, zero, suc, ◌+◌, ◌*◌, ◌%◌, ◌^◌, List, [], ◌∷◌, ◌++◌, Result, ok, err, ltb, if◌then◌else◌,
  length,
}
use sqnr.Text.Utf8.{Text, codes, as_bytes}
use sqnr.Text.Format.{show}
use sqnr.Core.Error.{Error, malformed}
use sqnr.Core.Bytes.{to_be_bytes}
use sqnr.Core.Key.{PubKey}
use sqnr.Core.Reader.{Reader, Read, pure, fail, ◌>>=◌, repeat, array, u32, bytes, string}

-- "sqnr-tx-v1", in bytes.
abbrev pub tx_context : List ℕ
tx_context = codes "sqnr-tx-v1"

abbrev pub max_ops : ℕ
max_ops = 64

abbrev pub max_detail : ℕ
max_detail = 32

abbrev pub max_str : ℕ
max_str = 4096

abbrev pub max_payload : ℕ
max_payload = 64 * 1024

pub record Operation : Type 0 where
  pub summary : Text
  pub detail : List Text
  pub payload : List ℕ

pub record Transaction : Type 0 where
  pub server : PubKey
  pub nonce : List ℕ
  pub ops : List Operation

-- What `put_bytes` appends to its buffer.
unfoldable pub put_bytes : List ℕ → List ℕ
put_bytes b = to_be_bytes (length b) ++ b

unfoldable pub encode_detail : List Text → List ℕ
encode_detail [] = []
encode_detail (line ∷ rest) = put_bytes (as_bytes line) ++ encode_detail rest

-- One round of the loop of `Transaction::encode`.
unfoldable pub encode_op : Operation → List ℕ
encode_op op =
    put_bytes (as_bytes op.summary)
    ++ (to_be_bytes (length op.detail) ++ (encode_detail op.detail ++ put_bytes op.payload))

unfoldable pub encode_ops : List Operation → List ℕ
encode_ops [] = []
encode_ops (op ∷ ops) = encode_op op ++ encode_ops ops

-- `Transaction::encode`
unfoldable pub encode : Transaction → List ℕ
encode t = t.server.raw ++ (t.nonce ++ (to_be_bytes (length t.ops) ++ encode_ops t.ops))

-- One round of the loop of `Transaction::decode_from`.
unfoldable pub decode_op : Read Operation
decode_op = do
  summary ← string max_str
  d ← u32
  (if ltb max_detail d then fail (malformed (codes "too many detail lines: " ++ show d)) else do
    detail ← repeat d (string max_str)
    payload ← bytes max_payload
    pure (record { summary = summary; detail = detail; payload = payload }))

-- `Transaction::decode_from`
unfoldable pub decode_from : Read Transaction
decode_from = do
  server ← array 32
  nonce ← array 32
  n ← u32
  (if ltb max_ops n then fail (malformed (codes "too many ops: " ++ show n)) else do
    ops ← repeat n decode_op
    pure (record { server = record { raw = server }; nonce = nonce; ops = ops }))

-- What is signed: the tag, and the SHA-256 `digest` of the encoding.
unfoldable pub signing_bytes : (List ℕ → List ℕ) → Transaction → List ℕ
signing_bytes digest t = tx_context ++ digest (encode t)
