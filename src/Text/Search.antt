-- ===== src/Text/Search.antt =====
-- `to_ascii_lowercase` and `str::contains`.
use sqnr.Base.{ℕ, ◌+◌, Bool, true, false, ◌&&◌, ◌||◌, [], ◌∷◌, leb, ◌==◌, if◌then◌else◌}
use sqnr.Text.Utf8.{Text}

unfoldable pub lower_char : ℕ → ℕ
lower_char c = if leb b'A' c && leb c b'Z' then c + 32 else c

unfoldable pub to_ascii_lowercase : Text → Text
unfolding lower_char
to_ascii_lowercase [] = []
to_ascii_lowercase (c ∷ s) = lower_char c ∷ to_ascii_lowercase s

unfoldable pub starts_with : Text → Text → Bool
starts_with s [] = true
starts_with [] (n ∷ needle) = false
starts_with (c ∷ s) (n ∷ needle) = (c == n) && starts_with s needle

unfoldable pub contains : Text → Text → Bool
unfolding starts_with
contains [] needle = starts_with [] needle
contains (c ∷ s) needle = starts_with (c ∷ s) needle || contains s needle
