-- ===== src/Prelude/Errors.antt =====
-- Calls that return no error: they return a value, or panic.
use mathlib.Core.Logic.{◌⊎◌}
use mathlib.Core.Path.{◌≡◌, refl, ap}
use mathlib.Core.Bool.{Bool, true, false}
use native.Mathlib.Omega.{arith}
use package.edgecenter_ccm.Prelude.Tests.{if◌then◌else◌}
use package.edgecenter_ccm.Prelude.Monad.{
  Outcome, ok, err, panic, Err, Exec, pure, abort, continue, caught, attempt, world, assign, ◌>>=◌,
}

module _ {S A : Type 0} where
  abbrev pub NeverErrs : Exec S A → Type 0
  NeverErrs m = (s t : S) (e : Err) → ¬ (m s ≡ (err e, t))

  pub pure-NeverErrs : (a : A) → NeverErrs (pure a)
  pure-NeverErrs a s t e h = ground arith

  pub abort-NeverErrs : NeverErrs abort
  abort-NeverErrs s t e h = ground arith

  pub if-NeverErrs :
      (b : Bool) (m n : Exec S A) → NeverErrs m → NeverErrs n → NeverErrs (if b then m else n)
  if-NeverErrs true m n p q = p
  if-NeverErrs false m n p q = q

module _ {S A : Type 0} where
  pub attempt-NeverErrs : (m : Exec S A) → NeverErrs (attempt m)
  attempt-NeverErrs m s t e h = by_outcome (m s) h
    where
      by_outcome :
          (x : Outcome A × S) → ¬ (◌≡◌ {A = Outcome (Err ⊎ A) × S} (caught x.0, x.1) (err e, t))
      by_outcome (ok a, u) h = ground arith
      by_outcome (err d, u) h = ground arith
      by_outcome (panic, u) h = ground arith

module _ {S A B : Type 0} where
  pub >>=-NeverErrs :
      (m : Exec S A) (f : A → Exec S B)
      → NeverErrs m
      → ((a : A) → NeverErrs (f a))
      → NeverErrs (m >>= f)
  >>=-NeverErrs m f p q s t e h = by_outcome (m s) refl h
    where
      by_outcome : (x : Outcome A × S) → m s ≡ x → ¬ (continue x.0 f x.1 ≡ (err e, t))
      by_outcome (ok a, u) eq h = q a u t e h
      by_outcome (err d, u) eq h = p s u d eq
      by_outcome (panic, u) eq h = ground arith

module _ {V S A : Type 0} where
  pub world-NeverErrs : (m : Exec S A) → NeverErrs m → NeverErrs {S = V × S} (world m)
  world-NeverErrs m p (v, s) (w, t) e h = p s t e (ap (λ (z : Outcome A × (V × S)). (z.0, z.1.1)) h)

module _ {V S : Type 0} where
  pub assign-NeverErrs : (v : V) → NeverErrs {S = V × S} (assign v)
  assign-NeverErrs v s t e h = ground arith
