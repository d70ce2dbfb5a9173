-- ===== src/Prelude/Branches.antt =====
-- Inversion of a call that branches: which branch gave the result.
use mathlib.Core.Logic.{◌≢◌, ◌⊎◌, inl, inr}
use mathlib.Core.Path.{◌≡◌, refl, ap, ◌∙◌}
use Prim.Native.String.{String}
use mathlib.Core.Bool.{Bool, true, false, not}
use native.Mathlib.Omega.{arith}
use package.edgecenter_ccm.Prelude.Tests.{if◌then◌else◌, Eq, ◌==◌, ==_iff}
use package.edgecenter_ccm.Prelude.Monad.{
  Outcome, ok, err, panic, Err, Exec, fail, continue, caught, attempt, wrapping, ◌>>=◌, world,
}

module _ {S A : Type 0} where
  pub if-cases :
      (b : Bool) (m n : Exec S A) (s : S) {x : Outcome A × S}
      → (if b then m else n) s ≡ x
      → ((b ≡ true) × (m s ≡ x)) ⊎ ((b ≡ false) × (n s ≡ x))
  if-cases true m n s h = inl (refl, h)
  if-cases false m n s h = inr (refl, h)

  pub fail_neq_ok : {e : Err} {a : A} {s t : S} → ¬ (◌≡◌ {A = Outcome A × S} (err e, s) (ok a, t))
  fail_neq_ok h = ground arith

  -- A guard that fails: where the call returned no error, the test was false.
  pub guard-passed :
      (b : Bool) (e : Err) (n : Exec S A) (s : S) {a : A} {t : S}
      → (if b then fail e else n) s ≡ (ok a, t)
      → (b ≡ false) × (n s ≡ (ok a, t))
  guard-passed true e n s h = absurd (fail_neq_ok h)
  guard-passed false e n s h = (refl, h)

pub double_negation : {b : Bool} → not b ≡ false → b ≡ true
double_negation {b = b} h = ground arith

pub single_negation : {b : Bool} → not b ≡ true → b ≡ false
single_negation {b = b} h = ground arith

pub neq_of_== {ℓ} : {A : Type ℓ} ⦃e : Eq A⦄ {a b : A} → (a == b) ≡ false → a ≢ b
neq_of_== {a} {b} h p = ground arith

pub ==_of_neq {ℓ} : {A : Type ℓ} ⦃e : Eq A⦄ {a b : A} → a ≢ b → (a == b) ≡ false
==_of_neq {a} {b} h = ground arith

pub eq_of_== {ℓ} : {A : Type ℓ} ⦃e : Eq A⦄ {a b : A} → (a == b) ≡ true → a ≡ b
eq_of_== {a} {b} h = (==_iff a b).0 h

module _ {S A B : Type 0} where
  -- Inversion of a call that returned an error: the first part did, or the second after it.
  pub >>=-eq-err :
      (m : Exec S A) (f : A → Exec S B) (s : S) {e : Err} {u : S}
      → (m >>= f) s ≡ (err e, u)
      → (m s ≡ (err e, u)) ⊎ ((a : A) × (t : S) × (m s ≡ (ok a, t)) × (f a t ≡ (err e, u)))
  >>=-eq-err m f s {e} {u} h = split (m s) refl h
    where
      split :
          (r : Outcome A × S)
          → m s ≡ r
          → continue r.0 f r.1 ≡ (err e, u)
          → (m s ≡ (err e, u)) ⊎ ((a : A) × (t : S) × (m s ≡ (ok a, t)) × (f a t ≡ (err e, u)))
      split (ok a, t) q h = inr (a, t, q, h)
      split (err x, t) q h =
          let same : ◌≡◌ {A = Outcome A × S} (err x, t) (err e, u) = ground arith in inl (q ∙ same)
      split (panic, t) q h = ground arith

module _ {V S A : Type 0} where
  -- A call of a closure keeps the captured variables.
  pub world-Keeps :
      (m : Exec S A) (x y : V × S) {r : Outcome A}
      → world m x ≡ (r, y)
      → (x.0 ≡ y.0) × (m x.1 ≡ (r, y.1))
  world-Keeps m x y h =
      (ap (λ (z : Outcome A × (V × S)). z.1.0) h, ap (λ (z : Outcome A × (V × S)). (z.0, z.1.1)) h)

module _ {S A : Type 0} where
  -- An attempt that gave a value is a call that returned it.
  pub attempt-eq-ok :
      (m : Exec S A) (s : S) {a : A} {t : S} → attempt m s ≡ (ok (inr a), t) → m s ≡ (ok a, t)
  attempt-eq-ok m s h = by_outcome (m s) h
    where
      by_outcome :
          (x : Outcome A × S) {a : A} {t : S}
          → ◌≡◌ {A = Outcome (Err ⊎ A) × S} (caught x.0, x.1) (ok (inr a), t)
          → x ≡ (ok a, t)
      by_outcome (ok a, t) h = ground arith
      by_outcome (err e, t) h = ground arith
      by_outcome (panic, t) h = ground arith

module _ {S A B : Type 0} where
  -- A call that returned a value goes on with it.
  pub >>=-ok :
      (m : Exec S A) (f : A → Exec S B) (s : S) {a : A} {t : S}
      → m s ≡ (ok a, t)
      → (m >>= f) s ≡ f a t
  >>=-ok m f s h = rw h refl

module _ {S A : Type 0} where
  pub wrapping-ok :
      (text : String) (m : Exec S A) (s : S) {a : A} {t : S}
      → m s ≡ (ok a, t)
      → wrapping text m s ≡ (ok a, t)
  wrapping-ok text m s h = rw h refl
