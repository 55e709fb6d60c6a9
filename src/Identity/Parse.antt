-- ===== src/Identity/Parse.antt =====
-- What `read_lines` makes of the text that `write_file` writes.
use sqnr.Base.{
  ℕ, ◌≡◌, ◌⊎◌, inl, inr, refl, sym, ◌∙◌, ap, false, List, [], ◌∷◌, ok, append-nil, ◌==◌, ◌=?◌,
  arith,
}
use sqnr.Text.Utf8.{Text}
use sqnr.Text.Trim.{trim, is_whitespace}
use sqnr.Text.TrimLaws.{IsSolid, trim_padded}
use sqnr.Text.Lines.{lines, IsPlain, lines-cons}
use sqnr.Identity.{Contents, enc_header, plain_header, file_text, parse_lines}

pub record IsContents (c : Contents) : Type 0 where
  pub known : (c.header ≡ enc_header) ⊎ (c.header ≡ plain_header)
  pub payload : IsSolid c.payload
  pub public : IsSolid c.public

pub solid_char : (c : ℕ) → is_whitespace c ≡ false → ((c == 10) ≡ false) × ((c == 13) ≡ false)
unfolding is_whitespace
solid_char c h = ground arith

solid-IsPlain : (s : Text) → IsSolid s → IsPlain s
solid-IsPlain [] h = tt
solid-IsPlain (c ∷ s) h = (solid_char c h.0, solid-IsPlain s h.1)

trim-IsSolid : (s : Text) → IsSolid s → trim s ≡ s
trim-IsSolid s h = ap trim (sym (append-nil s)) ∙ trim_padded [] s [] tt h tt

lines-file_text :
    (c : Contents)
    → IsSolid c.header
    → IsSolid c.payload
    → IsSolid c.public
    → lines (file_text c) ≡ c.header ∷ c.payload ∷ c.public ∷ lines []
unfolding file_text
lines-file_text c hh hp hk =
    lines-cons c.header _ (solid-IsPlain _ hh)
    ∙ ap (λ ls. c.header ∷ ls)
        (lines-cons c.payload _ (solid-IsPlain _ hp)
          ∙ ap (λ ls. c.payload ∷ ls) (lines-cons c.public [] (solid-IsPlain _ hk)))

enc_header-IsSolid : IsSolid enc_header
unfolding is_whitespace
enc_header-IsSolid = ground arith

plain_header-IsSolid : IsSolid plain_header
unfolding is_whitespace
plain_header-IsSolid = ground arith

pub header-IsSolid : (c : Contents) → IsContents c → IsSolid c.header
header-IsSolid c h = elim h.known [
  | inl e ↦ rw e enc_header-IsSolid
  | inr e ↦ rw e plain_header-IsSolid
]

-- Three lines that are these contents but for white space round them.
pub parse_trimmed :
    (shown : Text) (c : Contents) (header payload public : Text) (rest : List Text)
    → (c.header ≡ enc_header) ⊎ (c.header ≡ plain_header)
    → trim header ≡ c.header
    → trim payload ≡ c.payload
    → trim public ≡ c.public
    → parse_lines shown (header ∷ payload ∷ public ∷ rest) ≡ ok c
unfolding parse_lines ◌=?◌
parse_trimmed shown c header payload public rest known hh hp hk = elim known [
  | inl e ↦ rw (hh, hp, hk, e) refl
  | inr e ↦ rw (hh, hp, hk, e) refl
]

-- The three lines come back, where none of them has white space in it.
pub parse_lines-file_text :
    (shown : Text) (c : Contents) → IsContents c → parse_lines shown (lines (file_text c)) ≡ ok c
parse_lines-file_text shown c h = rw (lines-file_text c (header-IsSolid c h) h.payload h.public) (
    parse_trimmed shown c c.header c.payload c.public (lines []) h.known
      (trim-IsSolid c.header (header-IsSolid c h)) (trim-IsSolid c.payload h.payload)
      (trim-IsSolid c.public h.public))
