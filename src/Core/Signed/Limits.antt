-- ===== src/Core/Signed/Limits.antt =====
-- Messages that go beyond the decoder's limits.
use sqnr.Base.{◌<◌, ◌^◌, ◌≡◌, Option, none, some, ◌++◌, Result, ok, err, length}
use sqnr.Text.Utf8.{Text}
use sqnr.Core.Error.{Error, malformed}
use sqnr.Core.Bytes.{IsBytes, IsArray}
use sqnr.Core.Reader.{>>=-err, new}
use sqnr.Core.Reader.View.{IsValid, new-IsValid}
use sqnr.Core.Reader.Decides.{Decides}
use sqnr.Core.Tx.{encode, decode_from}
use sqnr.Core.Tx.Injective.{FitsTransaction}
use sqnr.Core.Tx.Limits.{problem, decode_from-Decides}
use sqnr.Core.Signed.{SignedTransaction, encode_signed, decode_signed, decode}
use sqnr.Core.Signed.Wire.{decode_after, decode_of_failure, rest-new}

-- The decoder's answer to a message with this problem, if any.
abbrev pub judged : SignedTransaction → Option Text → Result SignedTransaction Error
judged s none = ok s
judged s (some m) = err (malformed m)

decode-Decides :
    (s : SignedTransaction) (o : Option Text)
    → Decides decode_from (encode s.transaction) s.transaction o
    → IsArray 32 s.admin.raw
    → IsArray 64 s.signature
    → IsValid (new (encode_signed s))
    → decode (encode_signed s) ≡ judged s o
unfolding decode_signed encode_signed
decode-Decides s none reads ha hs v = decode_after s reads ha hs v
decode-Decides s (some m) fails ha hs v = decode_of_failure (encode_signed s) (malformed m) (
    >>=-err decode_from _
      (fails (new (encode_signed s)) (s.admin.raw ++ s.signature) v (rest-new (encode_signed s))))

-- Of a signed transaction whose keys, nonce and signature have their sizes, whose lengths fit
-- their prefixes, and whose encoding is bytes, below 2^63 of them, the decoder refuses the
-- encoding with the first limit that it goes beyond, in the order of the encoding: more than 64
-- operations, a text above 4096 bytes, more than 32 lines of detail, a payload above 65536 bytes;
-- and it gives the transaction back where it goes beyond none.
pub decode-problem :
    (s : SignedTransaction)
    → FitsTransaction s.transaction
    → IsArray 32 s.admin.raw
    → IsArray 64 s.signature
    → IsBytes (encode_signed s)
    → length (encode_signed s) < 2 ^ 63
    → decode (encode_signed s) ≡ judged s (problem s.transaction)
decode-problem s h ha hs hb small =
    decode-Decides s (problem s.transaction) (decode_from-Decides s.transaction h) ha hs
      (new-IsValid (encode_signed s) small hb)
