-- ===== src/Cloud/Wait/Ends.antt =====
-- More of the documented behaviour of apimachinery's ExponentialBackoff: which errors it returns.
use edgecenter_ccm.Prelude.{
  ℕ, zero, suc, ◌≡◌, refl, Bool, true, false, arith, ◌∙◌, ◌⊎◌, inl, inr, Exec, Outcome, ok, err,
  panic, Err, error_is, wait_timeout,
}
use edgecenter_ccm.Cloud.Client.{Backoff}
use edgecenter_ccm.Cloud.Wait.{run_backoff, after_check}

-- An error is the timeout, or the error of a check.
pub record IsTimed {State : Type 0} (b : Backoff State) : Type 1 where
  pub failed :
      (V : Type 0) (n : ℕ) (check : Exec (V × State) Bool) (x end : V × State) (e : Err)
      → b V n check x ≡ (err e, end)
      → (error_is e wait_timeout ≡ true) ⊎ ((y : V × State) × (check y ≡ (err e, end)))

module _ {State V : Type 0} (check : Exec (V × State) Bool) where
  abbrev Stopped : Err → V × State → Type 0
  Stopped e end = (error_is e wait_timeout ≡ true) ⊎ ((y : V × State) × (check y ≡ (err e, end)))

  after_check-Stopped :
      (rest : Exec (V × State) (Unit {0})) (x : V × State) (r : Outcome Bool) (y end : V × State)
      (e : Err)
      → ((z : V × State) → rest z ≡ (err e, end) → Stopped e end)
      → check x ≡ (r, y)
      → after_check rest r y ≡ (err e, end)
      → Stopped e end
  unfolding after_check
  after_check-Stopped rest x (ok true) y end e ih q h = ground arith
  after_check-Stopped rest x (ok false) y end e ih q h = ih y h
  after_check-Stopped rest x (err d) y end e ih q h = inr (x, q ∙ (ground arith))
  after_check-Stopped rest x panic y end e ih q h = ground arith

  run_backoff-Stopped :
      (n : ℕ) (x end : V × State) (e : Err) → run_backoff V n check x ≡ (err e, end) → Stopped e end
  unfolding run_backoff
  run_backoff-Stopped zero x end e h = inl (ground arith)
  run_backoff-Stopped (suc n) x end e h =
      after_check-Stopped (run_backoff V n check) x (check x).0 (check x).1 end e
        (λ z. run_backoff-Stopped n z end e) refl h

pub run_backoff-IsTimed : {State : Type 0} → IsTimed (run_backoff {State = State})
run_backoff-IsTimed = record {
  failed = λ V n check x end e h. run_backoff-Stopped check n x end e h;
}
