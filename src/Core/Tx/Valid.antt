-- ===== src/Core/Tx/Valid.antt =====
-- The transactions that fit the decoder's bounds.
use sqnr.Base.{◌≤◌, length, All}
use sqnr.Text.Utf8.{Text, IsText, as_bytes}
use sqnr.Core.Bytes.{IsBytes, IsArray}
use sqnr.Core.Tx.{Operation, Transaction, max_ops, max_detail, max_str, max_payload}

pub record IsLine (s : Text) : Type 0 where
  pub text : IsText s
  pub short : length (as_bytes s) ≤ max_str

pub record IsOperation (op : Operation) : Type 0 where
  pub summary : IsLine op.summary
  pub detail : All IsLine op.detail
  pub few : length op.detail ≤ max_detail
  pub payload : IsBytes op.payload
  pub small : length op.payload ≤ max_payload

pub record IsTransaction (t : Transaction) : Type 0 where
  pub server : IsArray 32 t.server.raw
  pub nonce : IsArray 32 t.nonce
  pub ops : All IsOperation t.ops
  pub few : length t.ops ≤ max_ops
