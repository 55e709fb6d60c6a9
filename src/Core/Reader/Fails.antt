-- ===== src/Core/Reader/Fails.antt =====
-- How reading fails: a rule for each method of `Reader` and for sequencing.
use sqnr.Base.{
  ℕ, zero, suc, ◌≡◌, err, Option, none, some, Result-cases, inl, inr, Bool, true, false, not, ltb,
  length, ◌+◌, ◌-◌, ◌==◌, ◌++◌, Bool-cases, if◌then◌else◌,
}
use sqnr.Text.Utf8.{Text, codes}
use sqnr.Text.Format.{show}
use sqnr.Core.Error.{Error, malformed}
use sqnr.Core.Reader.{
  usize_max, Reader, Read, pure, fail, ◌>>=◌, repeat, take, array, u32, bytes, string, checked_utf8,
  finish,
}

-- Every failure of `m` calls the message malformed.
pub record FailsMalformed {A : Type 0} (m : Read A) : Type 0 where
  pub at : (r : Reader) (e : Error) → m r ≡ err e → (s : Text) × (e ≡ malformed s)

pub pure-FailsMalformed : {A : Type 0} (a : A) → FailsMalformed (pure a)
pure-FailsMalformed a = record { at = λ r e h. cc }

pub fail-FailsMalformed : {A : Type 0} (s : Text) → FailsMalformed (fail {A = A} (malformed s))
fail-FailsMalformed s = record { at = λ r e h. (s, cc) }

pub >>=-FailsMalformed :
    {A B : Type 0} (m : Read A) (f : A → Read B)
    → FailsMalformed m
    → ((a : A) → FailsMalformed (f a))
    → FailsMalformed (m >>= f)
>>=-FailsMalformed m f h k = record {
  at = λ r e q. elim (Result-cases (m r)) [
    | inl ((a, s), x) ↦ (k a).at s e (rw (x, ◌>>=◌) at q)
    | inr (y, x) ↦ h.at r e (cc (x, rw (x, ◌>>=◌) at q))
  ];
}

-- A refusal under a test, before the rest of the reading.
pub if-FailsMalformed :
    {A : Type 0} (b : Bool) (m n : Read A)
    → FailsMalformed m
    → FailsMalformed n
    → FailsMalformed (if b then m else n)
if-FailsMalformed true m n h k = h
if-FailsMalformed false m n h k = k

take_fails : (n : ℕ) (r : Reader) (e : Error) → take n r ≡ err e → (s : Text) × (e ≡ malformed s)
unfolding take
take_fails n r e h = elim (Bool-cases (ltb usize_max (r.pos + n))) [
  | inl over ↦ (codes "length overflow", cc (rw over at h))
  | inr fits ↦ elim (Bool-cases (ltb (length r.buf) (r.pos + n))) [
    | inl short ↦ (codes "unexpected end of message", cc (rw (fits, short) at h))
    | inr long ↦ cc (rw (fits, long) at h)
  ]
]

pub take-FailsMalformed : (n : ℕ) → FailsMalformed (take n)
take-FailsMalformed n = record { at = take_fails n }

finish_fails : (r : Reader) (e : Error) → finish r ≡ err e → (s : Text) × (e ≡ malformed s)
unfolding finish
finish_fails r e h = elim (Bool-cases (not (r.pos == length r.buf))) [
  | inl left ↦ (show (length r.buf - r.pos) ++ codes " trailing bytes", cc (rw left at h))
  | inr done ↦ cc (rw done at h)
]

pub finish-FailsMalformed : FailsMalformed finish
finish-FailsMalformed = record { at = finish_fails }

pub ruleset basic_rules = (
  pure-FailsMalformed, fail-FailsMalformed, >>=-FailsMalformed, if-FailsMalformed,
  take-FailsMalformed,
)

pub array-FailsMalformed : (n : ℕ) → FailsMalformed (array n)
unfolding array
array-FailsMalformed n = take-FailsMalformed n

pub u32-FailsMalformed : FailsMalformed u32
unfolding u32
u32-FailsMalformed = search (basic_rules, array-FailsMalformed)

pub bytes-FailsMalformed : (max : ℕ) → FailsMalformed (bytes max)
unfolding bytes
bytes-FailsMalformed max = search (basic_rules, u32-FailsMalformed)

checked_utf8-FailsMalformed : (s : Option Text) → FailsMalformed (checked_utf8 s)
unfolding checked_utf8
checked_utf8-FailsMalformed (some s) = search basic_rules
checked_utf8-FailsMalformed none = search basic_rules

pub string-FailsMalformed : (max : ℕ) → FailsMalformed (string max)
unfolding string
string-FailsMalformed max = search (basic_rules, bytes-FailsMalformed, checked_utf8-FailsMalformed)

pub repeat-FailsMalformed :
    {A : Type 0} (n : ℕ) (m : Read A) → FailsMalformed m → FailsMalformed (repeat n m)
unfolding repeat
repeat-FailsMalformed zero m h = search basic_rules
repeat-FailsMalformed (suc n) m h =
    >>=-FailsMalformed m _ h λ a.
      >>=-FailsMalformed (repeat n m) _ (repeat-FailsMalformed n m h) λ l. pure-FailsMalformed _

-- A rule for each method of `Reader`, and for sequencing them.
pub ruleset fails_rules = (
  basic_rules, array-FailsMalformed, u32-FailsMalformed, bytes-FailsMalformed,
  string-FailsMalformed, repeat-FailsMalformed, finish-FailsMalformed,
)
