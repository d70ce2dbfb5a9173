-- ===== src/Loadbalancer/Retry.antt =====
-- Waiting for the load balancer, and operations that are retried while it is immutable:
-- waitLoadbalancerActiveProvisioningStatus and waitLoadbalancerDeleted of loadbalancer.go,
-- isLoadBalancerImmutableError and runLBOperationWithRetry of loadbalancer_utils.go.
pub mod Success
use edgecenter_ccm.Prelude.{
  ℕ, Str, String, Option, none, some, Bool, true, false, not, ◌||◌, ◌⊎◌, inl, inr, codes, contains,
  if◌then◌else◌, Sentinel, wait_timeout, Err, failure, wrap, error_is, message, Exec, pure, fail,
  attempt, mapped, world, from_captured, assign, ◌>>=◌, ◌>>◌,
}
use edgecenter_ccm.Cloud.Types.{ProvisioningStatus, active, error}
use edgecenter_ccm.Cloud.Client.{Client}

abbrev pub active_steps : ℕ
active_steps = 19

abbrev pub delete_steps : ℕ
delete_steps = 13

abbrev pub operation_steps : ℕ
operation_steps = 6

-- `if errors.Is(err, wait.ErrWaitTimeout) { err = fmt.Errorf(text) }`
abbrev pub rename_timeout : String → Err → Err
rename_timeout text e = if error_is e wait_timeout then failure text else e

unfoldable pub is_load_balancer_immutable_error : (Sentinel → Str) → Err → Bool
unfolding contains
is_load_balancer_immutable_error texts e =
    contains (message texts e) (codes "immutable state")
    || contains (message texts e) (codes "is not allowed to process")

module _ (c : Client) where
  open c use {State, IP, loadbalancers, backoff, backoff_with_context, foreign_text}

  unfoldable pub judge_status : ProvisioningStatus → Exec (Option ProvisioningStatus × State) Bool
  judge_status active = pure true
  judge_status error = fail (failure "loadbalancer has gone into ERROR state")
  judge_status _ = pure false

  -- One check: the closure keeps the last status that it saw.
  unfoldable pub active_check : Str → Exec (Option ProvisioningStatus × State) Bool
  unfolding judge_status
  active_check id = do
    lb ← world (loadbalancers.get id)
    assign (some lb.provisioning_status)
    judge_status lb.provisioning_status

  -- The last status is only an operand of error texts, and is left out of the result.
  unfoldable pub wait_active : Str → Exec State (Unit {0})
  unfolding active_check
  wait_active id s =
      let (r, t) =
        from_captured none (backoff (Option ProvisioningStatus) active_steps (active_check id)) s in
      (
        mapped
            (rename_timeout
              "loadbalancer failed to go into ACTIVE provisioning status within allotted time")
            r,
        t,
      )

  unfoldable pub deleted_check : Str → Exec (Unit {0} × State) Bool
  deleted_check id = do exists ← world (loadbalancers.is_exist id); pure (not exists)

  unfoldable pub wait_deleted : Str → Exec State (Unit {0})
  unfolding deleted_check
  wait_deleted id s =
      let (r, t) = from_captured tt (backoff (Unit {0}) delete_steps (deleted_check id)) s in
      (mapped (rename_timeout "loadbalancer failed to delete within the allotted time") r, t)

  -- The error is kept in `lastErr`, and the loop goes on.
  abbrev pub retry_after : Err → Exec (Option Err × State) Bool
  retry_after e = do assign (some e); pure false

  module _ (lb_id : Str) (op : Exec State (Unit {0})) where
    unfoldable pub after_operation : Err ⊎ Unit {0} → Exec (Option Err × State) Bool
    after_operation (inl e) =
        if is_load_balancer_immutable_error foreign_text e then retry_after e else fail e
    after_operation (inr _) = do
      waited ← attempt (world (wait_active lb_id))
      elim waited [
        | inl e ↦ retry_after (wrap "LB not ACTIVE after %s for %s: " e)
        | inr _ ↦ pure true
      ]

    unfoldable pub operation_check : Exec (Option Err × State) Bool
    unfolding after_operation
    operation_check = do
      waited ← attempt (world (wait_active lb_id))
      elim waited [
        | inl e ↦ retry_after (wrap "LB not ACTIVE before %s for %s: " e)
        | inr _ ↦ do done ← attempt (world op); after_operation done
      ]

    -- `if err != nil { if lastErr != nil { return lastErr }; return err }; return nil`
    abbrev pub last_error : Option Err → Err → Err
    last_error none e = e
    last_error (some last) e = last

    unfoldable pub run_lb_operation_with_retry : Exec State (Unit {0})
    unfolding operation_check
    run_lb_operation_with_retry s =
        let (r, (last, t)) =
          backoff_with_context (Option Err) operation_steps operation_check (none, s) in
        (mapped (last_error last) r, t)
