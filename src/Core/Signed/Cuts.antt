-- ===== src/Core/Signed/Cuts.antt =====
-- Messages that are cut short, and messages that go on behind their end.
use sqnr.Base.{
  ℕ, ◌<◌, ◌^◌, ◌-◌, ◌≡◌, ◌≢◌, refl, sym, ◌∙◌, ap, List, [], ◌∷◌, ◌++◌, err, length, length-append,
  append_assoc, All-append, All-append_left, arith,
}
use sqnr.Text.Utf8.{codes}
use sqnr.Text.Format.{show}
use sqnr.Core.Error.{malformed}
use sqnr.Core.Bytes.{IsByte, IsBytes}
use sqnr.Core.Reader.{Reader, >>=-ok, >>=-err, array, finish, new}
use sqnr.Core.Reader.View.{rest, new-IsValid, length-rest}
use sqnr.Core.Reader.Reads.{array-Reads}
use sqnr.Core.Reader.Cuts.{Cuts, unexpected_end, >>=-Cuts, >>=-Cuts_last, array-Cuts}
use sqnr.Core.Tx.{encode, decode_from}
use sqnr.Core.Tx.RoundTrip.{decode_from-Reads}
use sqnr.Core.Tx.Cuts.{decode_from-Cuts}
use sqnr.Core.Signed.{SignedTransaction, encode_signed, decode_signed, decode}
use sqnr.Core.Signed.Wire.{
  IsSigned, rest-new, decode_of_failure, encode_signed-IsBytes, length-encode_signed,
}

decode_signed-Cuts : (s : SignedTransaction) → IsSigned s → Cuts decode_signed (encode_signed s)
unfolding decode_signed encode_signed
decode_signed-Cuts s h =
    >>=-Cuts decode_from _ (encode s.transaction) _ s.transaction
      (decode_from-Reads s.transaction h.transaction) (decode_from-Cuts s.transaction h.transaction)
      (>>=-Cuts (array 32) _ s.admin.raw _ s.admin.raw (array-Reads 32 s.admin.raw h.admin)
        (array-Cuts 32 s.admin.raw h.admin (omega arith))
        (>>=-Cuts_last (array 64) _ s.signature
          (array-Cuts 64 s.signature h.signature (omega arith))))

longer : (ext : List ℕ) → ext ≢ [] → 0 < length ext
longer [] h = absurd (h refl)
longer (b ∷ ext) h = omega arith

-- Wherever the encoding of a signed transaction within the bounds is cut, the decoder says that its
-- end is missing.
pub decode-cut :
    (s : SignedTransaction) (bs missing : List ℕ)
    → IsSigned s
    → bs ++ missing ≡ encode_signed s
    → missing ≢ []
    → decode bs ≡ err (malformed (codes "unexpected end of message"))
decode-cut s bs missing h e some =
    let sizes = length-append bs missing in
    let short : length bs < length (encode_signed s) =
      omega (arith, ap length e, sizes, longer missing some) in
    let v =
      new-IsValid bs (omega (arith, short, length-encode_signed s h))
        (All-append_left IsByte bs missing (rw e (encode_signed-IsBytes s h))) in
    decode_of_failure bs unexpected_end (
      decode_signed-Cuts s h (new bs) missing v (ap (λ x. x ++ missing) (rest-new bs) ∙ e)
        (omega (arith, short, ap length (rest-new bs))))

finish_early :
    (r : Reader) (ext : List ℕ)
    → rest r ≡ ext
    → ext ≢ []
    → finish r ≡ err (malformed (show (length ext) ++ codes " trailing bytes"))
unfolding finish
finish_early r ext e some =
    let left : length r.buf - r.pos ≡ length ext = sym (length-rest r) ∙ ap length e in
    let more = longer ext some in rw left (ground (arith, left, more))

-- Where bytes follow the encoding of a signed transaction within the bounds, below 2^63 bytes in all,
-- the decoder refuses the whole with their number.
pub decode-extended :
    (s : SignedTransaction) (ext : List ℕ)
    → IsSigned s
    → ext ≢ []
    → IsBytes ext
    → length (encode_signed s ++ ext) < 2 ^ 63
    → decode (encode_signed s ++ ext)
      ≡ err (malformed (show (length ext) ++ codes " trailing bytes"))
unfolding decode_signed encode_signed
decode-extended s ext h some hb small =
    let bs : List ℕ = encode_signed s ++ ext in
    let v =
      new-IsValid bs small
        (All-append IsByte (encode_signed s) ext (encode_signed-IsBytes s h) hb) in
    let (r1, e1, v1, left1) =
      decode_from-Reads s.transaction h.transaction (new bs) (s.admin.raw ++ (s.signature ++ ext)) v
        (rest-new bs ∙ simp append_assoc) in
    let (r2, e2, v2, left2) = array-Reads 32 s.admin.raw h.admin r1 (s.signature ++ ext) v1 left1 in
    let (r3, e3, v3, left3) = array-Reads 64 s.signature h.signature r2 ext v2 left2 in
    decode_of_failure bs (malformed (show (length ext) ++ codes " trailing bytes")) (
      >>=-ok decode_from _ e1
      ∙ >>=-ok (array 32) _ e2
      ∙ >>=-ok (array 64) _ e3
      ∙ >>=-err finish _ (finish_early r3 ext left3 some))
