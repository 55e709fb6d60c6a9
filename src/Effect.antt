-- ===== src/Effect.antt =====
-- Fallible calls that act on the outside world: `async fn … -> Result<A, String>`, with the world
-- passed on also where they fail.
pub mod Leaves
pub mod Adds
use sqnr.Base
use sqnr.Base.{◌≡◌, refl, Result, ok, err}
use sqnr.Text.Utf8.{Text}

abbrev pub Act : Type 0 → Type 0 → Type 0
Act W A = W → Result A Text × W

module _ {W : Type 0} where
  abbrev pub pure : {A : Type 0} → A → Act W A
  pure a w = (ok a, w)

  abbrev pub fail : {A : Type 0} → Text → Act W A
  fail e w = (err e, w)

  -- A result that needs no world.
  abbrev pub lift : {A : Type 0} → Result A Text → Act W A
  lift r w = (r, w)

  abbrev pub after : {A B : Type 0} → Result A Text → W → (A → Act W B) → Result B Text × W
  after (ok a) w f = f a w
  after (err e) w f = (err e, w)

  infixl 5 ◌>>=◌ ◌>>◌
  abbrev pub ◌>>=◌ : {A B : Type 0} → Act W A → (A → Act W B) → Act W B
  ◌>>=◌ m f w = let r = m w in after r.0 r.1 f

  abbrev pub ◌>>◌ : {B : Type 0} → Act W (Unit {0}) → Act W B → Act W B
  ◌>>◌ m k = m >>= λ _. k

  -- `.map_err(|e| format!(…))?`
  abbrev pub rename : {A : Type 0} → (Text → Text) → Act W A → Act W A
  rename f m w = let r = m w in (Base.map_err r.0 f, r.1)

  -- Inversion of a run that succeeded.
  after-eq-ok :
      {A B : Type 0} (r : Result A Text) (v : W) (f : A → Act W B) {b : B} {w' : W}
      → after r v f ≡ (ok b, w')
      → (a : A) × (r ≡ ok a) × (f a v ≡ (ok b, w'))
  after-eq-ok (ok a) v f e = (a, refl, e)
  after-eq-ok (err x) v f e = cc

  pub >>=-eq-ok :
      {A B : Type 0} (m : Act W A) (f : A → Act W B) {w w' : W} {b : B}
      → (m >>= f) w ≡ (ok b, w')
      → (a : A) × (v : W) × (m w ≡ (ok a, v)) × (f a v ≡ (ok b, w'))
  >>=-eq-ok m f {w = w} e =
      let (a, h, k) = after-eq-ok (m w).0 (m w).1 f e in (a, (m w).1, (λ i. (h i, (m w).1)), k)

  renamed-eq-ok :
      {A : Type 0} (f : Text → Text) (r : Result A Text) (v : W) {a : A} {w' : W}
      → ◌≡◌ {A = Result A Text × W} (Base.map_err r f, v) (ok a, w')
      → ◌≡◌ {A = Result A Text × W} (r, v) (ok a, w')
  renamed-eq-ok f (ok a) v e = e
  renamed-eq-ok f (err x) v e = cc

  pub rename-eq-ok :
      {A : Type 0} (f : Text → Text) (m : Act W A) {w w' : W} {a : A}
      → rename f m w ≡ (ok a, w')
      → m w ≡ (ok a, w')
  rename-eq-ok f m {w = w} e = renamed-eq-ok f (m w).0 (m w).1 e
