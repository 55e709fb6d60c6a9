-- ===== src/Identity/Edited.antt =====
-- Identity files that went through an editor: white space round the lines, carriage returns, no line
-- feed at the end, and lines behind the third.
use sqnr.Base.{
  ◌≡◌, ◌≢◌, inl, inr, refl, sym, ◌∙◌, ap, true, false, Option, List, [], ◌∷◌, ◌++◌, All, All-append,
  Result, ok, err, ◌==◌, append-nil,
}
use sqnr.Text.Utf8.{Text}
use sqnr.Text.Trim.{trim, is_whitespace}
use sqnr.Text.TrimLaws.{IsWhite, IsSolid, trim_padded, trim-cr}
use sqnr.Text.Lines.{lines, strip_cr, strip_cr-cases, IsOneLine, lines-line_feed, lines-last}
use sqnr.Core.Key.{Encodings}
use sqnr.Core.Signed.{Crypto}
use sqnr.Effect.{after, lift}
use sqnr.Fs.{Fs}
use sqnr.Identity.{Vault, Contents, file_text, parse_lines, read_lines}
use sqnr.Identity.Files.{unlock, guarded, load, read_public, is_encrypted}
use sqnr.Identity.Parse.{
  IsContents, header-IsSolid, solid_char, parse_trimmed, parse_lines-file_text,
}

-- White space within a line.
abbrev pub IsBlank : Text → Type 0
IsBlank = All (λ c. (is_whitespace c ≡ true) × ((c == 10) ≡ false))

-- A text with white space round it.
pub data Padded (s : Text) : Text → Type 0 where
  pad : (front back : Text) → IsBlank front → IsBlank back → Padded s (front ++ (s ++ back))

-- What can stand behind the third line.
pub data Ends : Text → Type 0 where
  at_once : Ends []
  line_feed : (rest : Text) → Ends (10 ∷ rest)

-- A file with these contents, edited.
pub data Edited (c : Contents) : Text → Type 0 where
  edited :
      (header payload public tail : Text)
      → Padded c.header header
      → Padded c.payload payload
      → Padded c.public public
      → Ends tail
      → Edited c (header ++ (10 ∷ payload ++ (10 ∷ public ++ tail)))

blank-IsWhite : (s : Text) → IsBlank s → IsWhite s
blank-IsWhite [] h = tt
blank-IsWhite (c ∷ s) h = (h.0.0, blank-IsWhite s h.1)

blank-IsOneLine : (s : Text) → IsBlank s → IsOneLine s
blank-IsOneLine [] h = tt
blank-IsOneLine (c ∷ s) h = (h.0.1, blank-IsOneLine s h.1)

solid-IsOneLine : (s : Text) → IsSolid s → IsOneLine s
solid-IsOneLine [] h = tt
solid-IsOneLine (c ∷ s) h = ((solid_char c h.0).0, solid-IsOneLine s h.1)

trim-strip_cr : (s : Text) → trim (strip_cr s) ≡ trim s
trim-strip_cr s = elim (strip_cr-cases s) [
  | inl e ↦ ap trim e
  | inr e ↦ sym (trim-cr (strip_cr s)) ∙ ap trim (sym e)
]

Padded-trim : {s line : Text} → IsSolid s → Padded s line → trim line ≡ s
Padded-trim {s} h (pad front back hf hb) =
    trim_padded front s back (blank-IsWhite front hf) h (blank-IsWhite back hb)

Padded-IsOneLine : {s line : Text} → IsSolid s → Padded s line → IsOneLine line
Padded-IsOneLine {s} h (pad front back hf hb) =
    All-append _ front (s ++ back) (blank-IsOneLine front hf)
      (All-append _ s back (solid-IsOneLine s h) (blank-IsOneLine back hb))

append-eq_nil : (s t : Text) → s ++ t ≡ [] → (s ≡ []) × (t ≡ [])
append-eq_nil [] t e = (refl, e)
append-eq_nil (c ∷ s) t e = cc

Padded-some : {s line : Text} → s ≢ [] → Padded s line → line ≢ []
Padded-some {s} filled (pad front back hf hb) e =
    filled (append-eq_nil s back (append-eq_nil front (s ++ back) e).1).0

module _ (shown : Text) where
  -- The third line, as it is taken out of the text.
  last_of :
      (public tail : Text)
      → IsOneLine public
      → public ≢ []
      → Ends tail
      → (l : Text) × (rest : List Text) × (lines (public ++ tail) ≡ l ∷ rest)
        × (trim l ≡ trim public)
  last_of public tail one filled at_once =
      (public, [], ap lines (append-nil public) ∙ lines-last public one filled, refl)
  last_of public tail one filled (line_feed rest) =
      (strip_cr public, lines rest, lines-line_feed public rest one, trim-strip_cr public)

  parse_lines-Edited :
      (c : Contents) (text : Text)
      → IsContents c
      → c.public ≢ []
      → Edited c text
      → parse_lines shown (lines text) ≡ ok c
  parse_lines-Edited c text h filled (edited header payload public tail ph pp pk end) =
      let hh = header-IsSolid c h in
      let (l, rest, last, same) =
        last_of public tail (Padded-IsOneLine h.public pk) (Padded-some filled pk) end in
      ap (parse_lines shown) (
        lines-line_feed header _ (Padded-IsOneLine hh ph)
        ∙ ap (λ ls. strip_cr header ∷ ls)
            (lines-line_feed payload _ (Padded-IsOneLine h.payload pp)
              ∙ ap (λ ls. strip_cr payload ∷ ls) last))
      ∙ parse_trimmed shown c (strip_cr header) (strip_cr payload) l rest h.known
          (trim-strip_cr header ∙ Padded-trim hh ph)
          (trim-strip_cr payload ∙ Padded-trim h.payload pp) (same ∙ Padded-trim h.public pk)

-- Two calls that need no world.
after-lift :
    {W A B : Type 0} (r : Result A Text) (v w : W) (f : A → Result B Text)
    → (after r v (λ a. lift (f a))).0 ≡ (after r w (λ a. lift (f a))).0
after-lift (ok a) v w f = refl
after-lift (err e) v w f = refl

module _ (F : Fs) where
  -- What `read_lines` makes of a text.
  pub read_lines-text :
      (path : F.PathBuf) (c : Contents) (text : Text) (w w' : F.World)
      → F.read_to_string path w ≡ (ok text, w')
      → parse_lines (F.display path) (lines text) ≡ ok c
      → read_lines F path w ≡ (ok c, w')
  unfolding read_lines
  read_lines-text path c text w w' e h = rw (e, h) refl

  module _ (C : Crypto) (E : Encodings) (V : Vault) where
    -- An identity file with one of the two headers, whose payload and public key have no white space
    -- in them, and whose public key is not empty, reads the same after it went through an editor that
    -- put white space round its lines, used carriage returns, left out the last line feed, or added
    -- lines at the end: it loads to the same key under the same passphrase, or fails alike, shows the
    -- same public key, and counts as encrypted just if it did before.
    pub load-Edited :
        (path : F.PathBuf) (passphrase : Option Text) (c : Contents) (text : Text)
        (w w' v v' : F.World)
        → IsContents c
        → c.public ≢ []
        → F.read_to_string path w ≡ (ok (file_text c), w')
        → F.read_to_string path v ≡ (ok text, v')
        → Edited c text
        → ((load C E V F path passphrase v).0 ≡ (load C E V F path passphrase w).0)
          × ((read_public C E V F path v).0 ≡ (read_public C E V F path w).0)
          × ((is_encrypted C E V F path v).0 ≡ (is_encrypted C E V F path w).0)
    unfolding load read_public is_encrypted
    load-Edited path passphrase c text w w' v v' h filled e e' changed =
        let before =
          read_lines-text path c (file_text c) w w' e
            (parse_lines-file_text (F.display path) c h) in
        let now =
          read_lines-text path c text v v' e'
            (parse_lines-Edited (F.display path) c text h filled changed) in
        rw (before, now)
          (after-lift (unlock C E V c passphrase) v' w' (guarded C E V c), refl, refl)
