-- ===== src/Cloud/Wait.antt =====
-- What the code relies on in apimachinery's ExponentialBackoff and its variant with a context, as
-- documented: the loop ends without an error only at a check that answers true, and before it every
-- check answered false. Errors, a timeout or a cancelled context, are left open.
pub mod Ends
use edgecenter_ccm.Prelude.{
  ℕ, zero, suc, ◌≡◌, refl, Bool, true, false, arith, ap, ◌∙◌, Exec, Outcome, ok, err, panic,
  sentinel, wait_timeout,
}
use edgecenter_ccm.Cloud.Client.{Backoff}

module _ {State V : Type 0} where
  -- `P` holds of the captured variables as long as the checks answer false.
  abbrev pub Keeps : (V → Type 0) → Exec (V × State) Bool → Type 0
  Keeps P check = (v w : V) (s t : State) → P v → check (v, s) ≡ (ok false, (w, t)) → P w

pub record IsBackoff {State : Type 0} (b : Backoff State) : Type 1 where
  pub done :
      (V : Type 0) (n : ℕ) (check : Exec (V × State) Bool) (P : V → Type 0)
      → Keeps P check
      → (v : V) (s : State) (end : V × State) → P v
      → b V n check (v, s) ≡ (ok tt, end)
      → (w : V) × (t : State) × P w × (check (w, t) ≡ (ok true, end))

-- A loop that sleeps no time, to run the code with.
module _ {X : Type 0} where
  unfoldable pub after_check : Exec X (Unit {0}) → Outcome Bool → Exec X (Unit {0})
  after_check rest (ok true) x = (ok tt, x)
  after_check rest (ok false) x = rest x
  after_check rest (err e) x = (err e, x)
  after_check rest panic x = (panic, x)

unfoldable pub run_backoff : {State : Type 0} → Backoff State
unfolding after_check
run_backoff V zero check x = (err (sentinel wait_timeout), x)
run_backoff V (suc n) check x = let (r, y) = check x in after_check (run_backoff V n check) r y

module _ {State V : Type 0} (check : Exec (V × State) Bool) (P : V → Type 0) where
  abbrev Passed : V × State → Type 0
  Passed end = (w : V) × (t : State) × P w × (check (w, t) ≡ (ok true, end))

  module _ (keep : Keeps P check) where
    after_check-Passed :
        (rest : Exec (V × State) (Unit {0})) (v : V) (s : State) (r : Outcome Bool)
        (y end : V × State)
        → ((w : V) (t : State) → P w → rest (w, t) ≡ (ok tt, end) → Passed end)
        → P v
        → check (v, s) ≡ (r, y)
        → after_check rest r y ≡ (ok tt, end)
        → Passed end
    unfolding after_check
    after_check-Passed rest v s (ok true) y end ih p e h =
        (v, s, p, e ∙ ap (λ (x : Outcome (Unit {0}) × (V × State)). (ok true, x.1)) h)
    after_check-Passed rest v s (ok false) (w, t) end ih p e h = ih w t (keep v w s t p e) h
    after_check-Passed rest v s (err x) y end ih p e h = ground arith
    after_check-Passed rest v s panic y end ih p e h = ground arith

    run_backoff-Passed :
        (n : ℕ) (v : V) (s : State) (end : V × State)
        → P v
        → run_backoff V n check (v, s) ≡ (ok tt, end)
        → Passed end
    unfolding run_backoff
    run_backoff-Passed zero v s end p h = ground arith
    run_backoff-Passed (suc n) v s end p h =
        after_check-Passed (run_backoff V n check) v s (check (v, s)).0 (check (v, s)).1 end
          (λ w t q e. run_backoff-Passed n w t end q e) p refl h

pub run_backoff-IsBackoff : {State : Type 0} → IsBackoff (run_backoff {State = State})
run_backoff-IsBackoff = record {
  done = λ V n check P keep v s end p h. run_backoff-Passed check P keep n v s end p h;
}
