-- ===== src/Text/Lines.antt =====
-- `str::lines`.
use sqnr.Base.{
  arith, ◌⊎◌, inl, inr, ◌≢◌, ℕ, true, false, ◌≡◌, refl, ◌∙◌, ap, List, [], ◌∷◌, ◌++◌, ◌==◌,
  if◌then◌else◌, All, append_assoc, append-nil,
}
use sqnr.Text.Utf8.{Text}

cons_cr : ℕ → Text → Text
cons_cr c [] = if c == 13 then [] else c ∷ []
cons_cr c (d ∷ s) = c ∷ d ∷ s

-- A line without the carriage return at its end, if there is one.
unfoldable pub strip_cr : Text → Text
unfolding cons_cr
strip_cr [] = []
strip_cr (c ∷ []) = cons_cr c []
strip_cr (c ∷ d ∷ s) = c ∷ strip_cr (d ∷ s)

-- What follows the last line feed is a line if it is not empty, and keeps its carriage return.
last_line : Text → List Text
last_line [] = []
last_line (c ∷ s) = (c ∷ s) ∷ []

-- The lines, the first of them begun by `line`.
unfoldable pub lines_from : Text → Text → List Text
unfolding last_line strip_cr
lines_from line [] = last_line line
lines_from line (c ∷ s) = elim (c == 10) [
  | true ↦ strip_cr line ∷ lines_from [] s
  | false ↦ lines_from (line ++ (c ∷ [])) s
]

unfoldable pub lines : Text → List Text
unfolding lines_from
lines s = lines_from [] s

-- Neither a line feed nor a carriage return.
abbrev pub IsPlain : Text → Type 0
IsPlain = All (λ c. ((c == 10) ≡ false) × ((c == 13) ≡ false))

strip_cr-IsPlain : (s : Text) → IsPlain s → strip_cr s ≡ s
unfolding strip_cr
strip_cr-IsPlain [] h = refl
strip_cr-IsPlain (c ∷ []) h = rw h.0.1
strip_cr-IsPlain (c ∷ d ∷ s) h = ap (λ t. c ∷ t) (strip_cr-IsPlain (d ∷ s) h.1)

-- No line feed.
abbrev pub IsOneLine : Text → Type 0
IsOneLine = All (λ c. (c == 10) ≡ false)

lines_from-append :
    (line s rest : Text)
    → IsOneLine s
    → lines_from line (s ++ (10 ∷ rest)) ≡ strip_cr (line ++ s) ∷ lines_from [] rest
unfolding lines_from
lines_from-append line [] rest h = rw append-nil
lines_from-append line (c ∷ s) rest h =
    rw (h.0, lines_from) (lines_from-append (line ++ (c ∷ [])) s rest h.1 ∙ rw append_assoc)

-- A text without line feeds in front of one is the first line, but for a carriage return at its end.
pub lines-line_feed :
    (s rest : Text) → IsOneLine s → lines (s ++ (10 ∷ rest)) ≡ strip_cr s ∷ lines rest
unfolding lines
lines-line_feed s rest h = lines_from-append [] s rest h

lines_from-last : (line s : Text) → IsOneLine s → lines_from line s ≡ last_line (line ++ s)
unfolding lines_from
lines_from-last line [] h = rw append-nil
lines_from-last line (c ∷ s) h =
    rw (h.0, lines_from) (lines_from-last (line ++ (c ∷ [])) s h.1 ∙ rw append_assoc)

-- So is the last one, which may lack its line feed and then keeps a carriage return.
pub lines-last : (s : Text) → IsOneLine s → s ≢ [] → lines s ≡ s ∷ []
unfolding lines last_line
lines-last [] h some = absurd (some refl)
lines-last (c ∷ s) h some = lines_from-last [] (c ∷ s) h

IsPlain-IsOneLine : (s : Text) → IsPlain s → IsOneLine s
IsPlain-IsOneLine [] h = tt
IsPlain-IsOneLine (c ∷ s) h = (h.0.0, IsPlain-IsOneLine s h.1)

-- A plain text in front of a line feed is the first line.
pub lines-cons : (s rest : Text) → IsPlain s → lines (s ++ (10 ∷ rest)) ≡ s ∷ lines rest
lines-cons s rest h = lines-line_feed s rest (IsPlain-IsOneLine s h) ∙ rw (strip_cr-IsPlain s h)

-- At most the carriage return at the end of a line is lost.
pub strip_cr-cases : (s : Text) → (strip_cr s ≡ s) ⊎ (s ≡ strip_cr s ++ (13 ∷ []))
unfolding strip_cr
strip_cr-cases [] = inl refl
strip_cr-cases (c ∷ []) = ground arith
strip_cr-cases (c ∷ d ∷ s) = elim (strip_cr-cases (d ∷ s)) [
  | inl e ↦ inl (ap (λ t. c ∷ t) e)
  | inr e ↦ inr (ap (λ t. c ∷ t) e)
]
