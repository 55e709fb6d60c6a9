-- ===== src/Text/Format.antt =====
-- `{}` of a number in `format!`: its decimal digits.
use sqnr.Base.{ℕ, zero, suc, ◌+◌, ◌/◌, ◌%◌, [], ◌∷◌, ◌==◌, if◌then◌else◌}
use sqnr.Text.Utf8.{Text}

-- The digits of `n`, in front of `acc`.
unfoldable pub show_loop : ℕ → ℕ → Text → Text
show_loop zero n acc = acc
show_loop (suc fuel) n acc =
    let digits = (48 + n % 10) ∷ acc in
    let more = show_loop fuel (n / 10) digits in if n / 10 == 0 then digits else more

-- A number has at most as many digits as its value, and one at least.
unfoldable pub show : ℕ → Text
unfolding show_loop
show n = show_loop (suc n) n []
