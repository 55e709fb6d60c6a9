-- ===== src/Core/Reader/Cuts.antt =====
-- Reading bytes of which the end is missing: a rule for each method of `Reader` and for sequencing.
use sqnr.Base.{
  ℕ, ◌≤◌, ◌<◌, ◌^◌, ◌≡◌, ◌⊎◌, inl, inr, refl, ◌∙◌, ap, List, [], ◌∷◌, ◌++◌, err, length,
  length-append, All, drop, le→ltb_not, arith,
}
use sqnr.Text.Utf8.{Text, codes, as_bytes}
use sqnr.Core.Bytes.{IsArray, u32_mod, to_be_bytes, to_be_bytes-IsArray}
use sqnr.Core.Error.{Error, malformed}
use sqnr.Core.Reader.{Reader, Read, ◌>>=◌, >>=-ok, >>=-err, repeat, take, array, u32, bytes, string}
use sqnr.Core.Reader.View.{rest, IsValid, length-rest}
use sqnr.Core.Reader.Reads.{Reads, print_all, u32-Reads}

abbrev pub unexpected_end : Error
unexpected_end = malformed (codes "unexpected end of message")

-- Where only a front of the bytes `w` is left, `m` says so.
abbrev pub Cuts : {A : Type 0} → Read A → List ℕ → Type 0
Cuts m w =
    (r : Reader) (missing : List ℕ)
    → IsValid r
    → rest r ++ missing ≡ w
    → length (rest r) < length w
    → m r ≡ err unexpected_end

-- A front of `w ++ w'` ends in `w` or goes on into `w'`.
front_cases :
    (u x w w' : List ℕ)
    → u ++ x ≡ w ++ w'
    → ((y : List ℕ) × (u ++ y ≡ w) × (length u < length w))
      ⊎ ((v : List ℕ) × (u ≡ w ++ v) × (v ++ x ≡ w'))
front_cases u x [] w' e = inr (u, refl, e)
front_cases [] x (b ∷ w) w' e = inl (b ∷ w, refl, omega arith)
front_cases (a ∷ u) x (b ∷ w) w' e = elim (front_cases u x w w' (ap (drop 1) e)) [
  | inl (y, h, k) ↦ inl (y, cc (e, h), omega (arith, k))
  | inr (v, h, k) ↦ inr (v, cc (e, h), k)
]

pub >>=-Cuts :
    {A B : Type 0} (m : Read A) (f : A → Read B) (w w' : List ℕ) (a : A)
    → Reads m w a
    → Cuts m w
    → Cuts (f a) w'
    → Cuts (m >>= f) (w ++ w')
>>=-Cuts m f w w' a reads cut k r missing v e short = elim (front_cases (rest r) missing w w' e) [
  | inl (y, h, less) ↦ >>=-err m f (cut r y v h less)
  | inr (left, h, whole) ↦
      let (s, hs, vs, es) = reads r left v h in
      >>=-ok m f hs
      ∙ k s missing vs (rw es whole)
          (omega (arith, ap length h, ap length es, length-append w left, length-append w w'))
]

-- The last step reads nothing.
pub >>=-Cuts_last :
    {A B : Type 0} (m : Read A) (f : A → Read B) (w : List ℕ) → Cuts m w → Cuts (m >>= f) w
>>=-Cuts_last m f w cut r missing v e short = >>=-err m f (cut r missing v e short)

take-Cuts : (w : List ℕ) → length w < 2 ^ 63 → Cuts (take (length w)) w
unfolding take
take-Cuts w h r missing v e short = ground (arith, length-rest r, v.within, v.small)

pub array-Cuts : (n : ℕ) (w : List ℕ) → IsArray n w → n < 2 ^ 63 → Cuts (array n) w
unfolding array
array-Cuts n w h small = rw (← h.size) (take-Cuts w (omega (arith, h.size)))

pub u32-Cuts : (n : ℕ) → Cuts u32 (to_be_bytes n)
unfolding u32
u32-Cuts n =
    >>=-Cuts_last (array 4) _ _ (array-Cuts 4 (to_be_bytes n) (to_be_bytes-IsArray n) (omega arith))

pub bytes-Cuts :
    (max : ℕ) (b : List ℕ)
    → length b ≤ max
    → max < u32_mod
    → Cuts (bytes max) (to_be_bytes (length b) ++ b)
unfolding bytes
bytes-Cuts max b h k =
    >>=-Cuts u32 _ (to_be_bytes (length b)) b (length b) (u32-Reads (length b) (omega arith))
      (u32-Cuts (length b)) (rw (le→ltb_not max (length b) h) (take-Cuts b (omega arith)))

pub string-Cuts :
    (max : ℕ) (s : Text)
    → length (as_bytes s) ≤ max
    → max < u32_mod
    → Cuts (string max) (to_be_bytes (length (as_bytes s)) ++ as_bytes s)
unfolding string
string-Cuts max s h k = >>=-Cuts_last (bytes max) _ _ (bytes-Cuts max (as_bytes s) h k)

-- A loop says so in the round that the end is missing from.
pub repeat-Cuts :
    {A : Type 0} (m : Read A) (print : A → List ℕ) (P : A → Type 0)
    → ((a : A) → P a → Reads m (print a) a)
    → ((a : A) → P a → Cuts m (print a))
    → (l : List A) → All P l
    → Cuts (repeat (length l) m) (print_all print l)
unfolding repeat
repeat-Cuts m print P reads cut [] h = λ r missing v e short. absurd (omega (arith, short))
repeat-Cuts m print P reads cut (a ∷ l) h =
    >>=-Cuts m _ (print a) (print_all print l) a (reads a h.0) (cut a h.0)
      (>>=-Cuts_last (repeat (length l) m) _ _ (repeat-Cuts m print P reads cut l h.1))
