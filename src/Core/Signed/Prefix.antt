-- ===== src/Core/Signed/Prefix.antt =====
-- Messages are told apart by their front.
use sqnr.Base.{
  ℕ, ◌<◌, ◌^◌, ◌≡◌, sym, ◌∙◌, ap, List, [], ◌++◌, ok, length, length-append, append_assoc,
  append-nil, All-map, All-append_left, arith,
}
use sqnr.Text.Utf8.{Text}
use sqnr.Core.Bytes.{IsByte, IsBytes}
use sqnr.Core.Tx.{Operation, Transaction}
use sqnr.Core.Tx.Valid.{IsLine, IsOperation, IsTransaction}
use sqnr.Core.Tx.Injective.{FitsLine, FitsOperation, FitsTransaction, append_split, encode_split}
use sqnr.Core.Signed.{SignedTransaction, encode_signed, decode}
use sqnr.Core.Signed.Wire.{IsSigned, decode_canonical}

line-Fits : (l : Text) → IsLine l → FitsLine l
line-Fits l h = record { text = h.text; prefix = omega (arith, h.short) }

operation-Fits : (op : Operation) → IsOperation op → FitsOperation op
operation-Fits op h = record {
  summary = line-Fits op.summary h.summary;
  detail = All-map IsLine FitsLine line-Fits op.detail h.detail;
  lines = omega (arith, h.few);
  payload = omega (arith, h.small);
}

transaction-Fits : (t : Transaction) → IsTransaction t → FitsTransaction t
transaction-Fits t h = record {
  server = h.server;
  nonce = h.nonce;
  ops = All-map IsOperation FitsOperation operation-Fits t.ops h.ops;
  count = omega (arith, h.few);
}

signed_split :
    (s t : SignedTransaction) (ext : List ℕ)
    → IsSigned s
    → IsSigned t
    → encode_signed s ++ ext ≡ encode_signed t
    → (ext ≡ []) × (s ≡ t)
unfolding encode_signed
signed_split s t ext hs ht e =
    let (transaction, left1) =
      encode_split s.transaction t.transaction (s.admin.raw ++ (s.signature ++ ext))
        (t.admin.raw ++ t.signature) (transaction-Fits _ hs.transaction)
        (transaction-Fits _ ht.transaction) (simp append_assoc at e) in
    let (admin, left2) =
      append_split s.admin.raw t.admin.raw _ _ (hs.admin.size ∙ sym ht.admin.size) left1 in
    let (signature, left3) =
      append_split s.signature t.signature ext [] (hs.signature.size ∙ sym ht.signature.size)
        (left2 ∙ sym (append-nil t.signature)) in
    (
      left3,
      λ i. record {
        transaction = transaction i;
        admin = record { raw = admin i };
        signature = signature i;
      },
    )

-- Of two byte strings below 2^63 bytes that the decoder accepts, neither is a proper front of the
-- other, and where one is a front of the other they decode to the same message.
decode_prefix_free :
    (bs ext : List ℕ) (s t : SignedTransaction)
    → IsBytes (bs ++ ext)
    → length (bs ++ ext) < 2 ^ 63
    → decode bs ≡ ok s
    → decode (bs ++ ext) ≡ ok t
    → (ext ≡ []) × (s ≡ t)
decode_prefix_free bs ext s t hb hl es et =
    let (front, hs) =
      decode_canonical bs s (All-append_left IsByte bs ext hb) (omega (arith, length-append bs ext))
        es in
    let (whole, ht) = decode_canonical (bs ++ ext) t hb hl et in
    signed_split s t ext hs ht (ap (λ x. x ++ ext) (sym front) ∙ whole)
