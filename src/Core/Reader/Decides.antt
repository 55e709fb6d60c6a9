-- ===== src/Core/Reader/Decides.antt =====
-- What reading makes of bytes that were written, within the bounds or not: a rule for each method of
-- `Reader` and for sequencing.
use sqnr.Base.{
  ℕ, ◌<◌, ◌≡◌, refl, ◌∙◌, Bool, true, false, Option, none, some, List, [], ◌∷◌, ◌++◌, err, length,
  append_assoc, append-nil, All, ltb, if◌then◌else◌,
}
use sqnr.Text.Utf8.{Text, IsText, codes, as_bytes}
use sqnr.Text.Format.{show}
use sqnr.Core.Bytes.{u32_mod, to_be_bytes}
use sqnr.Core.Error.{malformed}
use sqnr.Core.Reader.{Reader, Read, fail, ◌>>=◌, >>=-ok, >>=-err, repeat, take, u32, bytes, string}
use sqnr.Core.Reader.View.{rest, IsValid}
use sqnr.Core.Reader.Reads.{
  Reads, print_all, pure-Reads, >>=-Reads, take-Reads, u32-Reads, checked_utf8-Reads,
}

-- The first of two problems, if any.
abbrev pub first : Option Text → Option Text → Option Text
first none o = o
first (some s) o = some s

abbrev pub first_of {ℓ} : {A : Type ℓ} → (A → Option Text) → List A → Option Text
first_of problem [] = none
first_of problem (a ∷ l) = first (problem a) (first_of problem l)

-- On the bytes `w`, whatever follows them, `m` reads `a` where there is no problem, and else fails
-- with the problem.
abbrev pub Decides : {A : Type 0} → Read A → List ℕ → A → Option Text → Type 0
Decides m w a none = Reads m w a
Decides m w a (some s) =
    (r : Reader) (post : List ℕ) → IsValid r → rest r ≡ w ++ post → m r ≡ err (malformed s)

pub >>=-Decides :
    {A B : Type 0} (m : Read A) (f : A → Read B) (w w' : List ℕ) (a : A) (b : B)
    (o o' : Option Text)
    → Decides m w a o
    → Decides (f a) w' b o'
    → Decides (m >>= f) (w ++ w') b (first o o')
>>=-Decides m f w w' a b none none h k = >>=-Reads m f w w' a b h k
>>=-Decides m f w w' a b none (some s) h k = λ r post v e.
    let (r', hs, vs, es) = h r (w' ++ post) v (e ∙ append_assoc w w' post) in
    >>=-ok m f hs ∙ k r' post vs es
>>=-Decides m f w w' a b (some s) o' h k =
    λ r post v e. >>=-err m f (h r (w' ++ post) v (e ∙ append_assoc w w' post))

first-none : (o : Option Text) → first o none ≡ o
first-none none = refl
first-none (some s) = refl

-- The last step reads nothing.
pub >>=-Decides_last :
    {A B : Type 0} (m : Read A) (f : A → Read B) (w : List ℕ) (a : A) (b : B) (o : Option Text)
    → Decides m w a o
    → Reads (f a) [] b
    → Decides (m >>= f) w b o
>>=-Decides_last m f w a b o h k =
    rw (append-nil, first-none) at (>>=-Decides m f w [] a b o none h k)

-- A bound that is tested before the rest is read.
abbrev pub exceeds : Bool → Text → Option Text
exceeds over s = if over then some s else none

pub test-Decides :
    {A : Type 0} (over : Bool) (s : Text) (m : Read A) (w : List ℕ) (a : A) (o : Option Text)
    → Decides m w a o
    → Decides (if over then fail (malformed s) else m) w a (first (exceeds over s) o)
test-Decides true s m w a o h = λ r post v e. refl
test-Decides false s m w a o h = h

-- A field that is longer than the reader takes.
abbrev pub too_long : ℕ → List ℕ → Option Text
too_long max b =
    exceeds (ltb max (length b))
      (codes "field of " ++ show (length b) ++ codes " bytes exceeds " ++ show max)

pub bytes-Decides :
    (max : ℕ) (b : List ℕ)
    → length b < u32_mod
    → Decides (bytes max) (to_be_bytes (length b) ++ b) b (too_long max b)
unfolding bytes
bytes-Decides max b h =
    let all : Decides (bytes max) (to_be_bytes (length b) ++ b) b (first (too_long max b) none) =
      >>=-Decides u32 _ (to_be_bytes (length b)) b (length b) b none _ (u32-Reads (length b) h)
        (test-Decides (ltb max (length b)) _ (take (length b)) b b none (take-Reads b)) in
    rw (first-none (too_long max b)) at all

pub string-Decides :
    (max : ℕ) (s : Text)
    → IsText s
    → length (as_bytes s) < u32_mod
    → Decides
        (string max)
        (to_be_bytes (length (as_bytes s)) ++ as_bytes s)
        s
        (too_long max (as_bytes s))
unfolding string
string-Decides max s t h =
    >>=-Decides_last (bytes max) _ _ (as_bytes s) s _ (bytes-Decides max (as_bytes s) h)
      (checked_utf8-Reads s t)

-- A loop stops at the first round with a problem.
pub repeat-Decides :
    {A : Type 0} (m : Read A) (print : A → List ℕ) (P : A → Type 0) (problem : A → Option Text)
    → ((a : A) → P a → Decides m (print a) a (problem a))
    → (l : List A) → All P l
    → Decides (repeat (length l) m) (print_all print l) l (first_of problem l)
unfolding repeat
repeat-Decides m print P problem each [] h = pure-Reads []
repeat-Decides m print P problem each (a ∷ l) h =
    >>=-Decides m _ (print a) (print_all print l) a (a ∷ l) (problem a) _ (each a h.0) (
      >>=-Decides_last (repeat (length l) m) _ _ l (a ∷ l) _
        (repeat-Decides m print P problem each l h.1) (pure-Reads (a ∷ l)))
