-- ===== src/Core/Reader/Takes.antt =====
-- What a successful read has consumed: a rule for each method of `Reader` and for sequencing.
use sqnr.Base
use sqnr.Base.{
  ℕ, zero, suc, ◌+◌, ◌≤◌, ◌<◌, ◌≡◌, refl, sym, ◌∙◌, ap, List, [], ◌∷◌, ◌++◌, Result, ok, err, ltb,
  length, append_assoc, append-nil, All, All-append_left, All-append_right, take-append-drop, arith,
  if◌then◌else◌, Option, none, some, Result-cases, Bool-cases, Option-cases, inl, inr, true, false,
}
use sqnr.Text.Utf8.{IsText, as_bytes, from_utf8}
use sqnr.Text.Utf8Laws.{from_utf8_inv}
use sqnr.Core.Error.{Error}
use sqnr.Core.Bytes.{
  IsByte, IsBytes, IsArray, u32_mod, to_be_bytes, to_be_bytes-from_be_bytes, from_be_bytes-lt,
}
use sqnr.Core.Reader.{
  Reader, Read, pure, fail, ◌>>=◌, repeat, take, array, u32, bytes, string, checked_utf8, finish,
}
use sqnr.Core.Reader.View.{rest, IsValid, take_inv, length-rest}
use sqnr.Core.Reader.Reads.{print_all}

-- Where `m` returns `a`, it has consumed bytes `w` with `P a w`.
abbrev pub Takes : {A : Type 0} → Read A → (A → List ℕ → Type 0) → Type 0
Takes {A} m P =
    (r : Reader) (a : A) (r' : Reader)
    → IsValid r
    → m r ≡ ok (a, r')
    → (w : List ℕ) × (rest r ≡ w ++ rest r') × P a w × IsValid r'

pub pure-Takes : {A : Type 0} (b : A) (P : A → List ℕ → Type 0) → P b [] → Takes (pure b) P
pure-Takes b P h r a r' v e =
    let eb : b ≡ a = cc in let er : r ≡ r' = cc in rw (← eb, ← er) ([], refl, h, v)

pub fail-Takes : {A : Type 0} (x : Error) (P : A → List ℕ → Type 0) → Takes (fail x) P
fail-Takes x P r a r' v e = cc

-- Inversion of a successful sequence.
pub >>=_inv :
    {A B : Type 0} (m : Read A) (f : A → Read B) (r r' : Reader) (b : B)
    → (m >>= f) r ≡ ok (b, r')
    → (a : A) × (s : Reader) × (m r ≡ ok (a, s)) × (f a s ≡ ok (b, r'))
>>=_inv m f r r' b h = elim (Result-cases (m r)) [
  | inl ((a, s), e) ↦ (a, s, e, rw (e, ◌>>=◌) at h)
  | inr (x, e) ↦ cc (rw (e, ◌>>=◌) at h)
]

pub >>=-Takes :
    {A B : Type 0} (m : Read A) (f : A → Read B) (P : A → List ℕ → Type 0) (Q : B → List ℕ → Type 0)
    → Takes m P
    → ((a : A) (w : List ℕ) → P a w → Takes (f a) (λ b v. Q b (w ++ v)))
    → Takes (m >>= f) Q
>>=-Takes m f P Q h k r b r' v e =
    let (a, s, e1, e2) = >>=_inv m f r r' b e in
    let (w, cut, p, vs) = h r a s v e1 in
    let (w', cut', q, vr) = k a w p s b r' vs e2 in
    (w ++ w', cut ∙ ap (λ t. w ++ t) cut' ∙ sym (append_assoc w w' (rest r')), q, vr)

IsBytes-rest : (r : Reader) → IsValid r → IsBytes (rest r)
IsBytes-rest r v =
    All-append_right IsByte (Base.take r.pos r.buf) (rest r)
      (rw (take-append-drop r.pos r.buf) v.bytes)

pub array-Takes : (n : ℕ) → Takes (array n) (λ a w. (w ≡ a) × IsArray n a)
unfolding array
array-Takes n r a r' v e =
    let (cut, size, vr) = take_inv n r a r' v e in
    (
      a,
      cut,
      (
        refl,
        record {
          size = size;
          bytes = All-append_left IsByte a (rest r') (rw cut at (IsBytes-rest r v));
        },
      ),
      vr,
    )

pub u32-Takes : Takes u32 (λ n w. (w ≡ to_be_bytes n) × (n < u32_mod))
unfolding u32
u32-Takes = >>=-Takes (array 4) _ _ _ (array-Takes 4) λ a w h.
    pure-Takes _ _
      (append-nil w ∙ h.0 ∙ sym (to_be_bytes-from_be_bytes a h.1), from_be_bytes-lt a h.1)

-- `take` on the length that was read before it.
take-Takes : (n : ℕ) → Takes (take n) (λ a w. (w ≡ a) × IsArray n a)
take-Takes n = unfold array in array-Takes n

pub bytes-Takes :
    (max : ℕ)
    → Takes (bytes max) λ b w.
      (w ≡ to_be_bytes (length b) ++ b) × (length b ≤ max) × (length b < u32_mod) × IsBytes b
unfolding bytes
bytes-Takes max = >>=-Takes u32 _ _ _ u32-Takes λ n w h. elim (Bool-cases (ltb max n)) [
  | inl over ↦ rw over (fail-Takes _ _)
  | inr fits ↦ rw fits λ r b r' v e.
      let (w', cut, p, vr) = take-Takes n r b r' v e in
      (
        w',
        cut,
        (
          cc (h.0, p.0, p.1.size),
          ground (arith, p.1.size),
          omega (arith, p.1.size, h.1),
          p.1.bytes,
        ),
        vr,
      )
]

pub string-Takes :
    (max : ℕ)
    → Takes (string max) λ s w.
      (w ≡ to_be_bytes (length (as_bytes s)) ++ as_bytes s) × (length (as_bytes s) ≤ max) × IsText s
unfolding string
string-Takes max = >>=-Takes (bytes max) _ _ _ (bytes-Takes max) λ b w h.
    elim (Option-cases (from_utf8 b)) [
      | inl e ↦ unfold checked_utf8 in rw e (fail-Takes _ _)
      | inr (s, e) ↦
          let (text, same) = from_utf8_inv b s e in
          unfold checked_utf8 in
          rw e (pure-Takes s _ (append-nil w ∙ rw (← same) h.0, rw (← same) h.1, text))
    ]

module _ {A : Type 0} (m : Read A) (print : A → List ℕ) (R : A → Type 0) where
  -- A loop consumes what its rounds consume, one after another.
  pub repeat-Takes :
      Takes m (λ a w. (w ≡ print a) × R a)
      → (n : ℕ) → Takes (repeat n m) (λ l w. (w ≡ print_all print l) × (length l ≡ n) × All R l)
  unfolding repeat
  repeat-Takes each zero = pure-Takes [] _ (refl, refl, tt)
  repeat-Takes each (suc n) = >>=-Takes m _ _ _ each λ a w h.
      >>=-Takes (repeat n m) _ _ _ (repeat-Takes each n)
        λ l w' k. pure-Takes (a ∷ l) _ (cc (append-nil w', h.0, k.0), ap suc k.1, (h.1, k.2))

nil_of_length : (l : List ℕ) → length l ≡ 0 → l ≡ []
nil_of_length [] h = refl
nil_of_length (x ∷ l) h = absurd (omega arith)

-- `finish` succeeds at the end of the buffer only.
pub finish_inv : (r r' : Reader) (u : Unit {0}) → finish r ≡ ok (u, r') → (r' ≡ r) × (rest r ≡ [])
unfolding finish
finish_inv r r' u e =
    let at_end : r.pos ≡ length r.buf = ground arith in
    (ground arith, nil_of_length (rest r) (omega (arith, length-rest r, at_end)))

-- Where `m` returns `a`, it has consumed all that was left, with `P a` of it.
abbrev pub Ends : {A : Type 0} → Read A → (A → List ℕ → Type 0) → Type 0
Ends {A} m P = (r : Reader) (a : A) (r' : Reader) → IsValid r → m r ≡ ok (a, r') → P a (rest r)

pub finish-Ends :
    {A : Type 0} (b : A) (P : A → List ℕ → Type 0) → P b [] → Ends (finish >>= λ _. pure b) P
finish-Ends b P h r a r' v e =
    let (u, s, e1, e2) = >>=_inv finish (λ _. pure b) r r' a e in
    let (same, empty) = finish_inv r s u e1 in let eb : b ≡ a = cc in rw (empty, ← eb) h

pub >>=-Ends :
    {A B : Type 0} (m : Read A) (f : A → Read B) (P : A → List ℕ → Type 0) (Q : B → List ℕ → Type 0)
    → Takes m P
    → ((a : A) (w : List ℕ) → P a w → Ends (f a) (λ b v. Q b (w ++ v)))
    → Ends (m >>= f) Q
>>=-Ends m f P Q h k r b r' v e =
    let (a, s, e1, e2) = >>=_inv m f r r' b e in
    let (w, cut, p, vs) = h r a s v e1 in rw cut (k a w p s b r' vs e2)
