-- ===== src/Loadbalancer/Retry/Success.antt =====
-- What a success of the waits and of runLBOperationWithRetry tells of the load balancer.
use edgecenter_ccm.Prelude.{
  Str, Option, none, some, Bool, true, ◌⊎◌, inl, inr, Err, Outcome, ok, err, panic, Exec, mapped,
  caught, world, attempt, ◌>>=◌, ◌>>◌, attempt-world-eq-ok, ◌≡◌, refl, ap, ◌∙◌, arith, Bool-cases,
  continue, assign, sym, wrap, pure,
}
use edgecenter_ccm.Cloud.Types.{
  ProvisioningStatus, active, error, deleted, pending_delete, other_status, Loadbalancer,
}
use edgecenter_ccm.Cloud.Client.{Client}
use edgecenter_ccm.Cloud.Wait.{IsBackoff}
use edgecenter_ccm.Loadbalancer.Retry.{
  judge_status, active_check, active_steps, wait_active, after_operation, operation_check,
  operation_steps, run_lb_operation_with_retry, is_load_balancer_immutable_error, retry_after,
}

pub mapped-eq-ok :
    {A S : Type 0} (f : Err → Err) (x : Outcome A × S) {a : A} {t : S}
    → ◌≡◌ {A = Outcome A × S} (mapped f x.0, x.1) (ok a, t)
    → x ≡ (ok a, t)
mapped-eq-ok f (ok a, t) h = h
mapped-eq-ok f (err e, t) h = ground arith
mapped-eq-ok f (panic, t) h = ground arith

pub caught-eq-ok_inr :
    {A S : Type 0} (x : Outcome A × S) {a : A} {t : S}
    → ◌≡◌ {A = Outcome (Err ⊎ A) × S} (caught x.0, x.1) (ok (inr a), t)
    → x ≡ (ok a, t)
caught-eq-ok_inr (ok a, t) h = ground arith
caught-eq-ok_inr (err e, t) h = ground arith
caught-eq-ok_inr (panic, t) h = ground arith

module _ (c : Client) where
  open c use {State, IP, loadbalancers, backoff, backoff_with_context, foreign_text}

  -- The last answer of the API before the state `t`: the load balancer is ACTIVE.
  abbrev pub SeenActive : Str → State → Type 0
  SeenActive id t =
      (u : State) × (lb : Loadbalancer IP) × (loadbalancers.get id u ≡ (ok lb, t))
      × (lb.provisioning_status ≡ active)

  judge_status-active :
      (p : ProvisioningStatus) (x end : Option ProvisioningStatus × State)
      → judge_status c p x ≡ (ok true, end)
      → (p ≡ active) × (end ≡ x)
  unfolding judge_status
  judge_status-active active x end h = (refl, ground arith)
  judge_status-active error x end h = ground arith
  judge_status-active deleted x end h = ground arith
  judge_status-active pending_delete x end h = ground arith
  judge_status-active (other_status p) x end h = ground arith

  active_check-SeenActive :
      (id : Str) (w : Option ProvisioningStatus) (s : State)
      (end : Option ProvisioningStatus × State)
      → active_check c id (w, s) ≡ (ok true, end)
      → SeenActive id end.1
  unfolding active_check
  active_check-SeenActive id w s end h = by_outcome (loadbalancers.get id s) refl h
    where
      by_outcome :
          (x : Outcome (Loadbalancer IP) × State)
          → loadbalancers.get id s ≡ x
          → (let (r, t) = x in
              continue r
                (λ lb. do
                  assign (some lb.provisioning_status)
                  judge_status c lb.provisioning_status)
                (w, t))
            ≡ (ok true, end)
          → SeenActive id end.1
      by_outcome (ok lb, t) e h =
          let (is_active, same) = judge_status-active lb.provisioning_status _ end h in
          (
            s,
            lb,
            e ∙ ap (λ (v : Option ProvisioningStatus × State). (ok lb, v.1)) (sym same),
            is_active,
          )
      by_outcome (err e, t) _ h = ground arith
      by_outcome (panic, t) _ h = ground arith

  -- Where the backoff loop behaves as documented: waitLoadbalancerActiveProvisioningStatus returns no error only when the answer of its last
  -- request for the load balancer has the status ACTIVE.
  pub wait_active-SeenActive :
      (waits : IsBackoff backoff) (id : Str) (s t : State)
      → wait_active c id s ≡ (ok tt, t)
      → SeenActive id t
  unfolding wait_active
  wait_active-SeenActive waits id s t h =
      let run = backoff (Option ProvisioningStatus) active_steps (active_check c id) (none, s) in
      let (w, u, _, last) =
        waits.done (Option ProvisioningStatus) active_steps (active_check c id) (λ w. Unit {0})
          (λ v w s t p e. tt) none s (run.1.0, t) tt
          (ended run (mapped-eq-ok _ (run.0, run.1.1) h)) in
      active_check-SeenActive id w u (run.1.0, t) last
    where
      ended :
          (x : Outcome (Unit {0}) × (Option ProvisioningStatus × State))
          → ◌≡◌ {A = Outcome (Unit {0}) × State} (x.0, x.1.1) (ok tt, t)
          → x ≡ (ok tt, (x.1.0, t))
      ended x e = ground arith

  module _ (lb_id : Str) (op : Exec State (Unit {0})) where
    -- The operation went through, between two waits for the load balancer.
    abbrev Awaited : State → Type 0
    Awaited t =
        (s1 s2 s3 : State) × (wait_active c lb_id s1 ≡ (ok tt, s2))
        × (op s2 ≡ (ok tt, s3))
        × (wait_active c lb_id s3 ≡ (ok tt, t))

    -- The operation went through, in the state of an answer that the load balancer is ACTIVE, and
    -- the wait that started where it ended got such an answer too.
    abbrev pub Applied : State → Type 0
    Applied t =
        (s2 s3 : State) × SeenActive lb_id s2
        × (op s2 ≡ (ok tt, s3))
        × (wait_active c lb_id s3 ≡ (ok tt, t))
        × SeenActive lb_id t

    after_operation-done :
        (x : Err ⊎ Unit {0}) (last : Option Err) (s t : State) (last' : Option Err)
        → after_operation c lb_id op x (last, s) ≡ (ok true, (last', t))
        → (x ≡ inr tt) × (wait_active c lb_id s ≡ (ok tt, t))
    unfolding after_operation
    after_operation-done (inl e) last s t last' h =
        elim (Bool-cases (is_load_balancer_immutable_error foreign_text e)) [
          | inl b ↦ ground arith
          | inr b ↦ ground arith
        ]
    after_operation-done (inr u) last s t last' h = (refl, by_wait (wait_active c lb_id s) h)
      where
        by_wait :
            (x : Outcome (Unit {0}) × State)
            → (let (r, t') = x in
                continue
                  (caught r)
                  (λ waited. elim waited [
                    | inl e ↦ retry_after c (wrap "LB not ACTIVE after %s for %s: " e)
                    | inr _ ↦ pure true
                  ])
                  (last, t'))
              ≡ (ok true, (last', t))
            → x ≡ (ok tt, t)
        by_wait (ok a, t') h = ground arith
        by_wait (err e, t') h = ground arith
        by_wait (panic, t') h = ground arith

    operation_check-Awaited :
        (last last' : Option Err) (s t : State)
        → operation_check c lb_id op (last, s) ≡ (ok true, (last', t))
        → Awaited t
    unfolding operation_check
    operation_check-Awaited last last' s t h =
        let (waited, s2, e1, h1) =
          attempt-world-eq-ok (wait_active c lb_id)
            (λ waited. elim waited [
              | inl e ↦ retry_after c (wrap "LB not ACTIVE before %s for %s: " e)
              | inr _ ↦ do done ← attempt (world op); after_operation c lb_id op done
            ])
            last s h in
        by_wait waited s2 e1 h1
      where
        by_wait :
            (waited : Err ⊎ Unit {0}) (s2 : State)
            → attempt (wait_active c lb_id) s ≡ (ok waited, s2)
            → (let next : Exec (Option Err × State) Bool = elim waited [
              | inl e ↦ retry_after c (wrap "LB not ACTIVE before %s for %s: " e)
              | inr _ ↦ do done ← attempt (world op); after_operation c lb_id op done
            ] in
                next (last, s2) ≡ (ok true, (last', t)))
            → Awaited t
        by_wait (inl e) s2 e1 h1 = ground arith
        by_wait (inr u) s2 e1 h1 =
            let (done, s3, e2, h2) =
              attempt-world-eq-ok op (after_operation c lb_id op) last s2 h1 in
            let (did, e3) = after_operation-done done last s3 t last' h2 in
            (
              s,
              s2,
              s3,
              caught-eq-ok_inr (wait_active c lb_id s) e1,
              caught-eq-ok_inr (op s2) (e2 ∙ ap (λ (x : Err ⊎ Unit {0}). (ok x, s3)) did),
              e3,
            )

    -- Where the backoff loops behave as documented: when an operation run with retries returns no
    -- error, it was applied and itself returned no error, in the state of an answer of the API that
    -- the load balancer is ACTIVE, and a wait from there on ended with another such answer.
    pub run_lb_operation_with_retry-Applied :
        (looks : IsBackoff backoff) (waits : IsBackoff backoff_with_context) (s t : State)
        → run_lb_operation_with_retry c lb_id op s ≡ (ok tt, t)
        → Applied t
    unfolding run_lb_operation_with_retry
    run_lb_operation_with_retry-Applied looks waits s t h =
        let run =
          backoff_with_context (Option Err) operation_steps (operation_check c lb_id op)
            (none, s) in
        let (w, u, _, last) =
          waits.done (Option Err) operation_steps (operation_check c lb_id op) (λ w. Unit {0})
            (λ v w s t p e. tt) none s (run.1.0, t) tt
            (ended run (mapped-eq-ok _ (run.0, run.1.1) h)) in
        let (s1, s2, s3, before, did, after) = operation_check-Awaited w run.1.0 u t last in
        (
          s2,
          s3,
          wait_active-SeenActive looks lb_id s1 s2 before,
          did,
          after,
          wait_active-SeenActive looks lb_id s3 t after,
        )
      where
        ended :
            (x : Outcome (Unit {0}) × (Option Err × State))
            → ◌≡◌ {A = Outcome (Unit {0}) × State} (x.0, x.1.1) (ok tt, t)
            → x ≡ (ok tt, (x.1.0, t))
        ended x e = ground arith
