-- ===== src/Core/Reader/Reads.antt =====
-- Reading back what was written: a rule for each method of `Reader` and for sequencing.
use sqnr.Base.{
  ℕ, ◌≤◌, ◌<◌, ◌≡◌, refl, ◌∙◌, ap, List, [], ◌∷◌, ◌++◌, ok, length, append_assoc, append-nil, All,
  arith, le→ltb_not,
}
use sqnr.Text.Utf8.{Text, IsText, as_bytes, from_utf8}
use sqnr.Text.Utf8Laws.{from_utf8-as_bytes}
use sqnr.Core.Bytes.{
  IsArray, u32_mod, to_be_bytes, from_be_bytes, from_be_bytes-to_be_bytes, to_be_bytes-IsArray,
}
use sqnr.Core.Reader.{
  Reader, Read, pure, ◌>>=◌, >>=-ok, repeat, take, array, u32, bytes, string, checked_utf8, finish,
}
use sqnr.Core.Reader.View.{rest, IsValid, advance, take-rest, length-rest}

abbrev pub print_all {ℓ} : {A : Type ℓ} → (A → List ℕ) → List A → List ℕ
print_all print [] = []
print_all print (a ∷ l) = print a ++ print_all print l

-- `m` reads `a` off the bytes `w`, whatever follows them.
abbrev pub Reads : {A : Type 0} → Read A → List ℕ → A → Type 0
Reads m w a =
    (r : Reader) (post : List ℕ)
    → IsValid r
    → rest r ≡ w ++ post
    → (r' : Reader) × (m r ≡ ok (a, r')) × IsValid r' × (rest r' ≡ post)

pub pure-Reads : {A : Type 0} (a : A) → Reads (pure a) [] a
pure-Reads a r post v e = (r, refl, v, e)

pub >>=-Reads :
    {A B : Type 0} (m : Read A) (f : A → Read B) (w w' : List ℕ) (a : A) (b : B)
    → Reads m w a
    → Reads (f a) w' b
    → Reads (m >>= f) (w ++ w') b
>>=-Reads m f w w' a b h k r post v e =
    let (s, hs, vs, es) = h r (w' ++ post) v (e ∙ append_assoc w w' post) in
    let (t, ht, vt, et) = k s post vs es in (t, >>=-ok m f hs ∙ ht, vt, et)

-- The last step reads nothing.
pub >>=-Reads_last :
    {A B : Type 0} (m : Read A) (f : A → Read B) (w : List ℕ) (a : A) (b : B)
    → Reads m w a
    → Reads (f a) [] b
    → Reads (m >>= f) w b
>>=-Reads_last m f w a b h k = rw append-nil at (>>=-Reads m f w [] a b h k)

pub take-Reads : (w : List ℕ) → Reads (take (length w)) w w
take-Reads w r post v e = let (h, k, l) = take-rest r w post v e in (advance r (length w), h, k, l)

pub array-Reads : (n : ℕ) (w : List ℕ) → IsArray n w → Reads (array n) w w
unfolding array
array-Reads n w h = rw (← h.size) (take-Reads w)

pub u32-Reads : (n : ℕ) → n < u32_mod → Reads u32 (to_be_bytes n) n
unfolding u32
u32-Reads n h =
    let back : from_be_bytes (to_be_bytes n) ≡ n = from_be_bytes-to_be_bytes n ∙ omega arith in
    >>=-Reads_last (array 4) _ (to_be_bytes n) (to_be_bytes n) n
      (array-Reads 4 (to_be_bytes n) (to_be_bytes-IsArray n)) (rw back (pure-Reads n))

pub bytes-Reads :
    (max : ℕ) (b : List ℕ)
    → length b ≤ max
    → max < u32_mod
    → Reads (bytes max) (to_be_bytes (length b) ++ b) b
unfolding bytes
bytes-Reads max b h k =
    >>=-Reads u32 _ (to_be_bytes (length b)) b (length b) b (u32-Reads (length b) (omega arith))
      (rw (le→ltb_not max (length b) h) (take-Reads b))

pub checked_utf8-Reads : (s : Text) → IsText s → Reads (checked_utf8 (from_utf8 (as_bytes s))) [] s
unfolding checked_utf8
checked_utf8-Reads s t = rw (from_utf8-as_bytes s t) (pure-Reads s)

pub string-Reads :
    (max : ℕ) (s : Text)
    → IsText s
    → length (as_bytes s) ≤ max
    → max < u32_mod
    → Reads (string max) (to_be_bytes (length (as_bytes s)) ++ as_bytes s) s
unfolding string
string-Reads max s t h k =
    >>=-Reads_last (bytes max) _ _ (as_bytes s) s (bytes-Reads max (as_bytes s) h k)
      (checked_utf8-Reads s t)

-- A loop reads back what its rounds wrote, one after another.
pub repeat-Reads :
    {A : Type 0} (m : Read A) (print : A → List ℕ) (P : A → Type 0)
    → ((a : A) → P a → Reads m (print a) a)
    → (l : List A) → All P l
    → Reads (repeat (length l) m) (print_all print l) l
unfolding repeat
repeat-Reads m print P each [] h = pure-Reads []
repeat-Reads m print P each (a ∷ l) h =
    >>=-Reads m _ (print a) (print_all print l) a (a ∷ l) (each a h.0) (
      >>=-Reads_last (repeat (length l) m) _ _ l (a ∷ l) (repeat-Reads m print P each l h.1)
        (pure-Reads (a ∷ l)))

-- Nothing is left at the end of the buffer.
pub finish-Reads : (r : Reader) → rest r ≡ [] → IsValid r → finish r ≡ ok (tt, r)
unfolding finish
finish-Reads r e v = ground (arith, length-rest r, ap length e)
