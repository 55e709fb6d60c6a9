-- ===== src/Core/Reader.antt =====
-- crates/sqnr-core/src/tx.rs: `Reader`, the bounds-checked cursor that decoding reads from.
pub mod View
pub mod Reads
pub mod Takes
pub mod Fails
pub mod Decides
pub mod Cuts
use sqnr.Base
use sqnr.Base.{
  ℕ, zero, suc, ◌+◌, ◌-◌, ◌^◌, ◌≡◌, Option, none, some, List, [], ◌∷◌, ◌++◌, Result, ok, err, ltb,
  ◌==◌, not, if◌then◌else◌, length, drop,
}
use sqnr.Text.Utf8.{Text, codes, from_utf8}
use sqnr.Text.Format.{show}
use sqnr.Core.Error.{Error, malformed}
use sqnr.Core.Bytes.{from_be_bytes}

pub record Reader : Type 0 where
  pub buf : List ℕ
  pub pos : ℕ

-- A method that takes `&mut self` and may fail: the result comes with the new cursor.
abbrev pub Read : Type 0 → Type 0
Read A = Reader → Result (A × Reader) Error

abbrev pub pure : {A : Type 0} → A → Read A
pure a r = ok (a, r)

abbrev pub fail : {A : Type 0} → Error → Read A
fail e r = err e

infixl 5 ◌>>=◌
abbrev pub ◌>>=◌ : {A B : Type 0} → Read A → (A → Read B) → Read B
◌>>=◌ m f r = elim (m r) [ ok (a, s) ↦ f a s | err e ↦ err e ]

pub >>=-ok :
    {A B : Type 0} (m : Read A) (f : A → Read B) {r s : Reader} {a : A}
    → m r ≡ ok (a, s)
    → (m >>= f) r ≡ f a s
>>=-ok m f h = rw (h, ◌>>=◌)

pub >>=-err :
    {A B : Type 0} (m : Read A) (f : A → Read B) {r : Reader} {e : Error}
    → m r ≡ err e
    → (m >>= f) r ≡ err e
>>=-err m f h = rw (h, ◌>>=◌)

-- `for _ in 0..n { out.push(body(r)?) }`
unfoldable pub repeat : {A : Type 0} → ℕ → Read A → Read (List A)
repeat zero m = pure []
repeat (suc n) m = do a ← m; rest ← repeat n m; pure (a ∷ rest)

-- `usize` has 64 bits.
abbrev pub usize_max : ℕ
usize_max = 2 ^ 64 - 1

unfoldable pub new : List ℕ → Reader
new buf = record { buf = buf; pos = 0 }

unfoldable pub take : ℕ → Read (List ℕ)
take n r =
    let end = r.pos + n in
    if ltb usize_max end
    then err (malformed (codes "length overflow"))
    else if ltb (length r.buf) end
    then err (malformed (codes "unexpected end of message"))
    else ok (Base.take n (drop r.pos r.buf), record r { pos = end })

-- `array::<n>()`
unfoldable pub array : ℕ → Read (List ℕ)
array n = take n

unfoldable pub u32 : Read ℕ
u32 = do b ← array 4; pure (from_be_bytes b)

unfoldable pub bytes : ℕ → Read (List ℕ)
bytes max = do
  len ← u32
  (if ltb max len
      then fail (malformed (codes "field of " ++ show len ++ codes " bytes exceeds " ++ show max))
      else take len)

unfoldable pub checked_utf8 : Option Text → Read Text
checked_utf8 (some s) = pure s
checked_utf8 none = fail (malformed (codes "invalid utf-8"))

unfoldable pub string : ℕ → Read Text
string max = do raw ← bytes max; checked_utf8 (from_utf8 raw)

unfoldable pub finish : Read (Unit {0})
finish r =
    if not (r.pos == length r.buf)
    then err (malformed (show (length r.buf - r.pos) ++ codes " trailing bytes"))
    else ok (tt, r)
