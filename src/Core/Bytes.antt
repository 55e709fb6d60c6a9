-- ===== src/Core/Bytes.antt =====
-- Bytes, and the big-endian form of a `u32`.
use sqnr.Base.{
  ℕ, ◌+◌, ◌*◌, ◌/◌, ◌%◌, ◌^◌, ◌<◌, ◌≡◌, List, [], ◌∷◌, length, All, length-replicate, All-replicate,
  replicate, arith,
}

abbrev pub IsByte : ℕ → Type 0
IsByte b = b < 256

-- What holds of every byte string.
abbrev pub IsBytes : List ℕ → Type 0
IsBytes = All IsByte

-- A `[u8; n]`.
pub record IsArray (n : ℕ) (bs : List ℕ) : Type 0 where
  pub size : length bs ≡ n
  pub bytes : IsBytes bs

abbrev pub u32_mod : ℕ
u32_mod = 2 ^ 32

-- `(n as u32).to_be_bytes()`: the cast keeps the low 32 bits.
unfoldable pub to_be_bytes : ℕ → List ℕ
to_be_bytes n = (n / 16777216 % 256) ∷ (n / 65536 % 256) ∷ (n / 256 % 256) ∷ (n % 256) ∷ []

-- `u32::from_be_bytes` of four bytes.
unfoldable pub from_be_bytes : List ℕ → ℕ
from_be_bytes (a ∷ b ∷ c ∷ d ∷ []) = a * 16777216 + b * 65536 + c * 256 + d
from_be_bytes _ = 0

pub from_be_bytes-to_be_bytes : (n : ℕ) → from_be_bytes (to_be_bytes n) ≡ n % u32_mod
unfolding from_be_bytes to_be_bytes
from_be_bytes-to_be_bytes n = omega arith

pub to_be_bytes-from_be_bytes : (bs : List ℕ) → IsArray 4 bs → to_be_bytes (from_be_bytes bs) ≡ bs
unfolding from_be_bytes to_be_bytes
to_be_bytes-from_be_bytes (a ∷ b ∷ c ∷ d ∷ []) h = ground arith
to_be_bytes-from_be_bytes [] h = ground arith
to_be_bytes-from_be_bytes (a ∷ []) h = ground arith
to_be_bytes-from_be_bytes (a ∷ b ∷ []) h = ground arith
to_be_bytes-from_be_bytes (a ∷ b ∷ c ∷ []) h = ground arith
to_be_bytes-from_be_bytes (a ∷ b ∷ c ∷ d ∷ e ∷ r) h = ground arith

pub to_be_bytes-IsArray : (n : ℕ) → IsArray 4 (to_be_bytes n)
unfolding to_be_bytes
to_be_bytes-IsArray n = ground arith

pub from_be_bytes-lt : (bs : List ℕ) → IsArray 4 bs → from_be_bytes bs < u32_mod
unfolding from_be_bytes
from_be_bytes-lt (a ∷ b ∷ c ∷ d ∷ []) h = ground arith
from_be_bytes-lt [] h = ground arith
from_be_bytes-lt (a ∷ []) h = ground arith
from_be_bytes-lt (a ∷ b ∷ []) h = ground arith
from_be_bytes-lt (a ∷ b ∷ c ∷ []) h = ground arith
from_be_bytes-lt (a ∷ b ∷ c ∷ d ∷ e ∷ r) h = ground arith

pub zeros-IsArray : (n : ℕ) → IsArray n (replicate n 0)
zeros-IsArray n = record {
  size = length-replicate n _;
  bytes = All-replicate IsByte n 0 (omega arith);
}
