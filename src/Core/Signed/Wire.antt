-- ===== src/Core/Signed/Wire.antt =====
-- `SignedTransaction::encode` and `decode` on the wire.
use sqnr.Base.{
  ℕ, Result-cases, inl, inr, ◌^◌, ◌≤◌, ◌<◌, ◌≡◌, refl, sym, ◌∙◌, List, [], ◌++◌, ok, err, length,
  length-append, append-nil, arith,
}
use sqnr.Core.Error.{Error}
use sqnr.Core.Bytes.{IsArray, IsBytes}
use sqnr.Core.Reader.{Reader, >>=-ok, array, finish, new}
use sqnr.Core.Reader.View.{rest, IsValid, new-IsValid}
use sqnr.Core.Reader.Reads.{Reads, array-Reads, finish-Reads}
use sqnr.Core.Reader.Takes.{Ends, >>=-Ends, finish-Ends, array-Takes}
use sqnr.Core.Tx.{encode, decode_from}
use sqnr.Core.Tx.Valid.{IsTransaction}
use sqnr.Core.Tx.RoundTrip.{decode_from-Reads}
use sqnr.Core.Tx.Canonical.{decode_from-Takes}
use sqnr.Core.Tx.Octets.{join, encode-IsBytes}
use sqnr.Core.Tx.Size.{length-encode}
use sqnr.Core.Signed.{SignedTransaction, encode_signed, decode_signed, decode}

pub record IsSigned (s : SignedTransaction) : Type 0 where
  pub transaction : IsTransaction s.transaction
  pub admin : IsArray 32 s.admin.raw
  pub signature : IsArray 64 s.signature

-- A message within the decoder's bounds has at most this many bytes.
pub length-encode_signed :
    (s : SignedTransaction) → IsSigned s → length (encode_signed s) ≤ 12_854_180
unfolding encode_signed
length-encode_signed s h = omega (
  arith,
  length-append (encode s.transaction) (s.admin.raw ++ s.signature),
  length-append s.admin.raw s.signature,
  length-encode s.transaction h.transaction,
  h.admin.size,
  h.signature.size,
)

pub encode_signed-IsBytes : (s : SignedTransaction) → IsSigned s → IsBytes (encode_signed s)
unfolding encode_signed
encode_signed-IsBytes s h =
    join _ _ (encode-IsBytes s.transaction h.transaction) (join _ _ h.admin.bytes h.signature.bytes)

pub rest-new : (bs : List ℕ) → rest (new bs) ≡ bs
unfolding new
rest-new bs = refl

decode_of_read :
    (bs : List ℕ) (s : SignedTransaction) (r : Reader)
    → decode_signed (new bs) ≡ ok (s, r)
    → decode bs ≡ ok s
unfolding decode
decode_of_read bs s r e = rw (e, decode)

pub decode_of_failure :
    (bs : List ℕ) (e : Error) → decode_signed (new bs) ≡ err e → decode bs ≡ err e
unfolding decode
decode_of_failure bs e h = rw (h, decode)

decode_inv :
    (bs : List ℕ) (s : SignedTransaction)
    → decode bs ≡ ok s
    → (r : Reader) × (decode_signed (new bs) ≡ ok (s, r))
unfolding decode
decode_inv bs s e = elim (Result-cases (decode_signed (new bs))) [
  | inl ((t, r), h) ↦ (r, cc (h, rw (h, decode) at e))
  | inr (x, h) ↦ cc (rw (h, decode) at e)
]

-- What follows a transaction that was read.
pub decode_after :
    (s : SignedTransaction)
    → Reads decode_from (encode s.transaction) s.transaction
    → IsArray 32 s.admin.raw
    → IsArray 64 s.signature
    → IsValid (new (encode_signed s))
    → decode (encode_signed s) ≡ ok s
unfolding decode_signed encode_signed
decode_after s reads ha hs v =
    let bs : List ℕ = encode_signed s in
    let (r1, e1, v1, left1) = reads (new bs) (s.admin.raw ++ s.signature) v (rest-new bs) in
    let (r2, e2, v2, left2) = array-Reads 32 s.admin.raw ha r1 s.signature v1 left1 in
    let (r3, e3, v3, left3) =
      array-Reads 64 s.signature hs r2 [] v2 (left2 ∙ sym (append-nil s.signature)) in
    decode_of_read bs s r3 (
      >>=-ok decode_from _ e1
      ∙ >>=-ok (array 32) _ e2
      ∙ >>=-ok (array 64) _ e3
      ∙ >>=-ok finish _ (finish-Reads r3 left3 v3))

-- Every signed transaction within the bounds survives the wire.
pub decode-encode_signed : (s : SignedTransaction) → IsSigned s → decode (encode_signed s) ≡ ok s
decode-encode_signed s h =
    let small : length (encode_signed s) < 2 ^ 63 = omega (arith, length-encode_signed s h) in
    decode_after s (decode_from-Reads s.transaction h.transaction) h.admin h.signature
      (new-IsValid (encode_signed s) small (encode_signed-IsBytes s h))

abbrev IsWire : SignedTransaction → List ℕ → Type 0
IsWire s w = (w ≡ encode_signed s) × IsSigned s

decode_signed-Ends : Ends decode_signed IsWire
unfolding decode_signed encode_signed
decode_signed-Ends = >>=-Ends decode_from _ _ IsWire decode_from-Takes λ t w1 h1.
    >>=-Ends (array 32) _ _ (λ b v. IsWire b (w1 ++ v)) (array-Takes 32)
      λ admin w2 h2.
        >>=-Ends (array 64) _ _ (λ b v. IsWire b (w1 ++ (w2 ++ v))) (array-Takes 64)
          λ signature w3 h3.
            finish-Ends _ (λ b v. IsWire b (w1 ++ (w2 ++ (w3 ++ v))))
              (
                cc (append-nil w3, h1.0, h2.0, h3.0),
                record { transaction = h1.1; admin = h2.1; signature = h3.1 },
              )

-- A byte string below 2^63 bytes that the decoder accepts is the encoding of its result, which is
-- within the bounds.
pub decode_canonical :
    (bs : List ℕ) (s : SignedTransaction)
    → IsBytes bs
    → length bs < 2 ^ 63
    → decode bs ≡ ok s
    → (bs ≡ encode_signed s) × IsSigned s
decode_canonical bs s hb hl e =
    let (r, read) = decode_inv bs s e in
    rw rest-new at (decode_signed-Ends (new bs) s r (new-IsValid bs hl hb) read)
