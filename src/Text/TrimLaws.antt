-- ===== src/Text/TrimLaws.antt =====
-- What `trim` removes and what it keeps.
use sqnr.Base.{Bool-cases, inl, inr, ℕ, ◌≡◌, refl, ap, ◌∙◌, true, false, [], ◌∷◌, ◌++◌, All}
use sqnr.Text.Utf8.{Text}
use sqnr.Text.Trim.{is_whitespace, trim_start, cons_end, trim_end, trim}

abbrev pub IsWhite : Text → Type 0
IsWhite = All (λ c. is_whitespace c ≡ true)

-- No white space anywhere.
abbrev pub IsSolid : Text → Type 0
IsSolid = All (λ c. is_whitespace c ≡ false)

trim_start-append : (front s : Text) → IsWhite front → trim_start (front ++ s) ≡ trim_start s
unfolding trim_start
trim_start-append [] s h = refl
trim_start-append (c ∷ front) s h = rw h.0 (trim_start-append front s h.1)

trim_start-white : (back : Text) → IsWhite back → trim_start back ≡ []
unfolding trim_start
trim_start-white [] h = refl
trim_start-white (c ∷ back) h = rw h.0 (trim_start-white back h.1)

trim_end-white : (back : Text) → IsWhite back → trim_end back ≡ []
unfolding trim_end
trim_end-white [] h = refl
trim_end-white (c ∷ back) h = rw (trim_end-white back h.1, cons_end) (rw h.0)

cons_end-solid : (c : ℕ) (s : Text) → is_whitespace c ≡ false → cons_end c s ≡ c ∷ s
unfolding cons_end
cons_end-solid c [] h = rw h
cons_end-solid c (d ∷ s) h = refl

trim_end-solid : (s back : Text) → IsSolid s → IsWhite back → trim_end (s ++ back) ≡ s
unfolding trim_end
trim_end-solid [] back h k = trim_end-white back k
trim_end-solid (c ∷ s) back h k =
    ap (cons_end c) (trim_end-solid s back h.1 k) ∙ cons_end-solid c s h.0

trim_solid : (s back : Text) → IsSolid s → IsWhite back → trim (s ++ back) ≡ s
unfolding trim
trim_solid [] back h k = rw (trim_start-white back k) (trim_end-white [] tt)
trim_solid (c ∷ s) back h k = ap trim_end first ∙ trim_end-solid (c ∷ s) back h k
  where
    first : trim_start (c ∷ s ++ back) ≡ c ∷ s ++ back
    first = unfold trim_start in rw h.0

-- `trim` takes white space off both ends, and keeps a text that has none.
pub trim_padded :
    (front s back : Text)
    → IsWhite front
    → IsSolid s
    → IsWhite back
    → trim (front ++ (s ++ back)) ≡ s
unfolding trim
trim_padded front s back hf hs hb =
    ap trim_end (trim_start-append front (s ++ back) hf) ∙ trim_solid s back hs hb

trim_end-cr : (s : Text) → trim_end (s ++ (13 ∷ [])) ≡ trim_end s
unfolding trim_end cons_end is_whitespace
trim_end-cr [] = refl
trim_end-cr (c ∷ s) = ap (cons_end c) (trim_end-cr s)

-- A carriage return at the end is white space too.
pub trim-cr : (s : Text) → trim (s ++ (13 ∷ [])) ≡ trim s
unfolding trim trim_start is_whitespace
trim-cr [] = refl
trim-cr (c ∷ s) = elim (Bool-cases (is_whitespace c)) [
  | inl white ↦ rw white (trim-cr s)
  | inr solid ↦ rw solid (trim_end-cr (c ∷ s))
]

cons_end-append :
    (a : Text) (d : ℕ) (r : Text) (c : ℕ) → cons_end c (a ++ (d ∷ r)) ≡ c ∷ a ++ (d ∷ r)
unfolding cons_end
cons_end-append [] d r c = refl
cons_end-append (x ∷ a) d r c = refl

-- Where something is left of the end, all that stands before it is.
pub trim_end-append :
    (a b : Text) (d : ℕ) (r : Text) → trim_end b ≡ d ∷ r → trim_end (a ++ b) ≡ a ++ (d ∷ r)
unfolding trim_end
trim_end-append [] b d r h = h
trim_end-append (c ∷ a) b d r h =
    ap (cons_end c) (trim_end-append a b d r h) ∙ cons_end-append a d r c
