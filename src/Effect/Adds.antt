-- ===== src/Effect/Adds.antt =====
-- Calls that add at most a number to what a view sees of the world.
use sqnr.Base.{ℕ, ◌+◌, ◌≤◌, arith}
use sqnr.Text.Utf8.{Text}
use sqnr.Effect.{Act, rename, ◌>>=◌}
use sqnr.Effect.Leaves.{Leaves, after-Leaves}

-- Whether it succeeds or fails, `m` adds at most `n` to what `view` sees of the world.
pub record Adds {W A : Type 0} (view : W → ℕ) (n : ℕ) (m : Act W A) : Type 0 where
  pub at : (w : W) → view (m w).1 ≤ view w + n

module _ {W : Type 0} {view : W → ℕ} {n : ℕ} where
  pub Leaves-Adds : {A : Type 0} (m : Act W A) → Leaves view m → Adds view n m
  Leaves-Adds m h = record { at = λ w. omega (arith, h.at w) }

  pub rename-Adds :
      {A : Type 0} (f : Text → Text) (m : Act W A) → Adds view n m → Adds view n (rename f m)
  rename-Adds f m h = record { at = h.at }

  pub >>=-Adds :
      {A B : Type 0} (m : Act W A) (f : A → Act W B)
      → Adds view n m
      → ((a : A) → Leaves view (f a))
      → Adds view n (m >>= f)
  >>=-Adds m f h k = record { at = λ w. omega (arith, h.at w, after-Leaves (m w).0 (m w).1 f k) }

pub ruleset adds_rules = (rename-Adds, >>=-Adds)
