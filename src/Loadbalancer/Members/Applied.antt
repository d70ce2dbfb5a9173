-- ===== src/Loadbalancer/Members/Applied.antt =====
-- waitPoolMembersApplied of internal/edgecenter/loadbalancer_pools.go: what it has seen of the pool.
use edgecenter_ccm.Loadbalancer.Retry.Success.{caught-eq-ok_inr}
use edgecenter_ccm.Prelude.{
  subst, ok_injective, Str, Option, none, some, true, false, List, ◌⊎◌, inl, inr, str_eq, nat_eq,
  ◌≡◌, refl, ap, ◌∙◌, arith, Err, Outcome, ok, err, panic, attempt-world-eq-ok,
}
use edgecenter_ccm.Cloud.Types.{Pool, MemberCreate}
use edgecenter_ccm.Cloud.Client.{Client}
use edgecenter_ccm.Cloud.Wait.{IsBackoff}
use edgecenter_ccm.Loadbalancer.Retry.{wait_active, operation_steps}
use edgecenter_ccm.Loadbalancer.Members.{
  members_changed, Seen, judge_pool, get_pool, applied_check, applied_result,
  wait_pool_members_applied,
}

module _ (c : Client) (lb_id pool_id : Str) (desired : List (MemberCreate c.IP)) where
  open c use {State, IP, ip, loadbalancers, backoff_with_context}

  -- The pool has the desired members, and is an answer of the API.
  abbrev pub Observed : Pool IP → Type 0
  Observed p =
      (members_changed ip p.members desired ≡ false)
      × (u v : State) × (loadbalancers.pool_get pool_id u ≡ (ok (some p), v))

  judge_pool-settled :
      (seen : Seen c) (x : Err ⊎ Option (Pool IP)) (y : Seen c × State) (t : State) (p : Pool IP)
      (e : Option Err)
      → judge_pool c lb_id pool_id desired seen x y ≡ (ok true, ((some p, e), t))
      → (members_changed ip p.members desired ≡ false) × (x ≡ inr (some p))
  unfolding judge_pool
  judge_pool-settled (last, e') (inl x) y t p e h = ground arith
  judge_pool-settled (last, e') (inr none) y t p e h = ground arith
  judge_pool-settled (last, e') (inr (some q)) y t p e h = ground arith

  get_pool-settled :
      (seen : Seen c) (x : Err ⊎ Unit {0}) (s t : State) (p : Pool IP) (e : Option Err)
      → get_pool c lb_id pool_id desired seen x (seen, s) ≡ (ok true, ((some p, e), t))
      → Observed p
  unfolding get_pool
  get_pool-settled (last, e') (inl x) s t p e h = ground arith
  get_pool-settled (last, e') (inr x) s t p e h =
      let (got, s', read, judged) =
        attempt-world-eq-ok (loadbalancers.pool_get pool_id)
          (judge_pool c lb_id pool_id desired (last, e')) (last, e') s h in
      let (same, seen) = judge_pool-settled (last, e') got ((last, e'), s') t p e judged in
      (
        same,
        s,
        s',
        caught-eq-ok_inr (loadbalancers.pool_get pool_id s)
            (read ∙ ap (λ (y : Err ⊎ Option (Pool IP)). (ok y, s')) seen),
      )

  applied_check-settled :
      (seen : Seen c) (s t : State) (p : Pool IP) (e : Option Err)
      → applied_check c lb_id pool_id desired (seen, s) ≡ (ok true, ((some p, e), t))
      → Observed p
  unfolding applied_check
  applied_check-settled seen s t p e h =
      let (waited, s', _, next) =
        attempt-world-eq-ok (wait_active c lb_id) (get_pool c lb_id pool_id desired seen) seen s
          h in
      get_pool-settled seen waited s' t p e next

  module _ (waits : IsBackoff backoff_with_context) where
    applied_result-settled :
        (s t : State) (r : Outcome (Unit {0})) (seen : Seen c) (p : Pool IP)
        → backoff_with_context
            (Seen c)
            operation_steps
            (applied_check c lb_id pool_id desired)
            ((none, none), s)
          ≡ (r, (seen, t))
        → applied_result c lb_id pool_id desired r seen ≡ ok p
        → Observed p
    unfolding applied_result
    applied_result-settled s t (ok x) (some q, e) p run h =
        let (w, u, _, last) =
          waits.done (Seen c) operation_steps (applied_check c lb_id pool_id desired)
            (λ seen. Unit {0}) (λ v w s t p e. tt) (none, none) s ((some q, e), t) tt run in
        subst Observed (ok_injective h) (applied_check-settled w u t q e last)
    applied_result-settled s t (ok x) (none, e) p run h = ground arith
    applied_result-settled s t (err x) (last, some e) p run h = ground arith
    applied_result-settled s t (err x) (last, none) p run h = ground arith
    applied_result-settled s t panic seen p run h = ground arith

    -- Where the backoff loop behaves as documented: a pool that waitPoolMembersApplied returns without an error is an answer of the API to a request
    -- for that pool, and has the desired members as far as the comparison of members sees.
    pub wait_pool_members_applied-Observed :
        (s t : State) (p : Pool IP)
        → wait_pool_members_applied c lb_id pool_id desired s ≡ (ok p, t)
        → Observed p
    unfolding wait_pool_members_applied
    wait_pool_members_applied-Observed s t p h =
        applied_result-settled s _ _ _ p refl (ap (λ (x : Outcome (Pool IP) × State). x.0) h)
