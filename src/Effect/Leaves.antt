-- ===== src/Effect/Leaves.antt =====
-- Calls that leave a part of the world as it is: a rule for each way to build a call.
use sqnr.Base.{◌≡◌, refl, ◌∙◌, Bool, true, false, Result, ok, err, if◌then◌else◌}
use sqnr.Text.Utf8.{Text}
use sqnr.Effect.{Act, pure, fail, lift, after, rename, ◌>>=◌}

-- Whether it succeeds or fails, `m` leaves what `view` sees of the world.
pub record Leaves {W S A : Type 0} (view : W → S) (m : Act W A) : Type 0 where
  pub at : (w : W) → view (m w).1 ≡ view w

module _ {W S : Type 0} {view : W → S} where
  pub pure-Leaves : {A : Type 0} (a : A) → Leaves view (pure a)
  pure-Leaves a = record { at = λ w. refl }

  pub fail-Leaves : {A : Type 0} (e : Text) → Leaves view (fail {A = A} e)
  fail-Leaves e = record { at = λ w. refl }

  pub lift-Leaves : {A : Type 0} (r : Result A Text) → Leaves view (lift r)
  lift-Leaves r = record { at = λ w. refl }

  pub rename-Leaves :
      {A : Type 0} (f : Text → Text) (m : Act W A) → Leaves view m → Leaves view (rename f m)
  rename-Leaves f m h = record { at = h.at }

  pub if-Leaves :
      {A : Type 0} (b : Bool) (m n : Act W A)
      → Leaves view m
      → Leaves view n
      → Leaves view (if b then m else n)
  if-Leaves true m n h k = h
  if-Leaves false m n h k = k

  pub after-Leaves :
      {A B : Type 0} (r : Result A Text) (w : W) (f : A → Act W B)
      → ((a : A) → Leaves view (f a))
      → view (after r w f).1 ≡ view w
  after-Leaves (ok a) w f h = (h a).at w
  after-Leaves (err e) w f h = refl

  pub >>=-Leaves :
      {A B : Type 0} (m : Act W A) (f : A → Act W B)
      → Leaves view m
      → ((a : A) → Leaves view (f a))
      → Leaves view (m >>= f)
  >>=-Leaves m f h k = record { at = λ w. after-Leaves (m w).0 (m w).1 f k ∙ h.at w }

pub ruleset leaves_rules =
    (pure-Leaves, fail-Leaves, lift-Leaves, rename-Leaves, if-Leaves, >>=-Leaves)
