-- ===== src/Client/Envelope.antt =====
-- Which envelope version a connection emits.
use sqnr.Base.{
  ℕ, zero, suc, ◌+◌, false, ◌/◌, ◌%◌, ◌<◌, ◌≡◌, Option, none, some, [], ◌++◌, ◌==◌, if◌then◌else◌,
  arith, Bool-cases, inl, inr,
}
use sqnr.Text.Utf8.{Text}
use sqnr.Text.Format.{show, show_loop}
use sqnr.Text.Trim.{trim, is_whitespace}
use sqnr.Text.TrimLaws.{IsWhite, IsSolid, trim_padded}
use sqnr.Text.Parse.{parse_u8-lt, parse_u8-show}
use sqnr.Client.{nonzero, from_env, set_envelope_version, envelope_version}

-- Version 0 is reserved: it is never emitted, whatever is set or exported; and what is emitted is a
-- `u8`.
envelope_version_range :
    (setting v : ℕ) (env : Option Text)
    → setting < 256
    → envelope_version setting env ≡ some v
    → (0 < v) × (v < 256)
unfolding envelope_version from_env nonzero
envelope_version_range setting v none h e = ground arith
envelope_version_range setting v (some s) h e = ground (arith, parse_u8-lt (trim s) v)

digit_solid : (n : ℕ) → is_whitespace (48 + n % 10) ≡ false
unfolding is_whitespace
digit_solid n = ground arith

show_loop-IsSolid : (fuel n : ℕ) (acc : Text) → IsSolid acc → IsSolid (show_loop fuel n acc)
unfolding show_loop
show_loop-IsSolid zero n acc h = h
show_loop-IsSolid (suc fuel) n acc h = elim (Bool-cases (n / 10 == 0)) [
  | inl done ↦ rw done (digit_solid n, h)
  | inr more ↦ rw more (show_loop-IsSolid fuel (n / 10) _ (digit_solid n, h))
]

show-IsSolid : (n : ℕ) → IsSolid (show n)
unfolding show
show-IsSolid n = show_loop-IsSolid (suc n) n [] tt

-- What was set last wins over the environment; set to 0 it is unset, and the variable's number
-- counts, white space round it or not, unless it is 0 too.
envelope_version-set_envelope_version :
    (version old v : ℕ) (front back : Text)
    → v < 256
    → IsWhite front
    → IsWhite back
    → envelope_version (set_envelope_version version old) (some (front ++ (show v ++ back)))
      ≡ (if version == 0 then (if v == 0 then none else some v) else some version)
unfolding envelope_version set_envelope_version from_env nonzero
envelope_version-set_envelope_version version old v front back h hf hb =
    rw (trim_padded front (show v) back hf (show-IsSolid v) hb, parse_u8-show v h) (ground arith)
