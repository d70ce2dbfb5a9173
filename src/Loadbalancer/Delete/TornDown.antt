-- ===== src/Loadbalancer/Delete/TornDown.antt =====
-- The order in which EnsureLoadBalancerDeleted of internal/edgecenter/loadbalancer.go takes a load
-- balancer down.
use edgecenter_ccm.Prelude.{
  Str, String, Bool, true, false, List, [], ◌∷◌, ◌⊎◌, inl, inr, Err, not_found, error_is, Outcome,
  ok, err, panic, caught, continue, attempt, wrapping, quoting, >>=-eq-ok, guard-passed,
  wrapping-eq-ok, quoting-eq-ok, ◌≡◌, refl, ap, ◌∙◌, arith,
}
use edgecenter_ccm.Cloud.Types.{Service, Loadbalancer, Listener}
use edgecenter_ccm.Cloud.Client.{Client}
use edgecenter_ccm.Cloud.Wait.{IsBackoff}
use edgecenter_ccm.Loadbalancer.Options.Config.{Config}
use edgecenter_ccm.Loadbalancer.Retry.Success.{Applied, run_lb_operation_with_retry-Applied}
use edgecenter_ccm.Loadbalancer.Listeners.{delete_listener, delete_listener_with_retry}
use edgecenter_ccm.Loadbalancer.Pools.{get_pool_by_listener_id}
use edgecenter_ccm.Loadbalancer.Find.{find_loadbalancer}
use edgecenter_ccm.Loadbalancer.Delete.{
  delete_found, delete_found_loadbalancer, delete_load_balancer, bound_pool, delete_bound_pool,
  ensure_listener_deleted, ensure_listeners_deleted, ensure_load_balancer_deleted,
}
use edgecenter_ccm.Loadbalancer.Delete.Gone.{delete_found-some, delete_found-none}

module _ (c : Client) where
  open c use {State, IP, loadbalancers}

  -- From one state to another the listeners are deleted in turn: the deletion of each runs from the
  -- state in which the one before ended, and in this run the API accepted it, while the load
  -- balancer was ACTIVE.
  abbrev pub AllDeleted : Str → List Listener → State → State → Type 0
  AllDeleted lb_id [] s t = s ≡ t
  AllDeleted lb_id (ln ∷ listeners) s t =
      (u : State) × (ensure_listener_deleted c lb_id ln s ≡ (ok tt, u))
      × Applied c lb_id (delete_listener c ln.id) u
      × AllDeleted lb_id listeners u t

  -- All listeners that the load balancer had were deleted; after that the API accepted its own
  -- deletion, and answered that it does not exist any more.
  abbrev pub TornDown : Loadbalancer IP → State → Type 0
  TornDown lb s =
      (listeners : List Listener) × (u v w x : State) × (loadbalancers.listener_list lb.id s
        ≡ (ok listeners, u))
      × AllDeleted lb.id listeners u v
      × (loadbalancers.delete lb.id v ≡ (ok tt, w))
      × (loadbalancers.is_exist lb.id w ≡ (ok false, x))

  delete_load_balancer-eq-ok :
      (id : Str) (s t : State)
      → delete_load_balancer c id s ≡ (ok tt, t)
      → (w : State) × (loadbalancers.delete id s ≡ (ok tt, w))
        × (loadbalancers.is_exist id w ≡ (ok false, t))
  unfolding delete_load_balancer
  delete_load_balancer-eq-ok id s t h =
      let delete_text : String = "failed to delete loadbalancer %s: " in
      let check_text : String = "failed to check if loadbalancer %s exists: " in
      let (_, w, e, h1) = >>=-eq-ok (wrapping delete_text (loadbalancers.delete id)) _ s h in
      let (exists, x, e1, h2) =
        >>=-eq-ok (wrapping check_text (loadbalancers.is_exist id)) _ w h1 in
      let (gone, h3) = guard-passed exists _ _ x h2 in
      let same : x ≡ t = ap (λ (y : Outcome (Unit {0}) × State). y.1) h3 in
      (
        w,
        wrapping-eq-ok delete_text (loadbalancers.delete id) s e,
        wrapping-eq-ok check_text (loadbalancers.is_exist id) w e1
            ∙ ap (λ (b : Bool). (ok b, x)) gone
            ∙ ap (λ (y : State). (ok false, y)) same,
      )

  module _ (looks : IsBackoff c.backoff) (waits : IsBackoff c.backoff_with_context) where
    ensure_listener_deleted-Applied :
        (lb_id : Str) (ln : Listener) (s t : State)
        → ensure_listener_deleted c lb_id ln s ≡ (ok tt, t)
        → Applied c lb_id (delete_listener c ln.id) t
    unfolding ensure_listener_deleted delete_listener_with_retry
    ensure_listener_deleted-Applied lb_id ln s t h =
        let text : String = "error deleting obsolete listener %s: " in
        let (got, u, _, h1) = >>=-eq-ok (attempt (get_pool_by_listener_id c lb_id ln.id)) _ s h in
        let (pool, v, _, h2) = >>=-eq-ok (bound_pool c got) _ u h1 in
        let (_, w, _, h3) = >>=-eq-ok (delete_bound_pool c lb_id pool) _ v h2 in
        run_lb_operation_with_retry-Applied c lb_id (delete_listener c ln.id) looks waits w t
          (quoting-eq-ok text (delete_listener_with_retry c lb_id ln.id) w h3)

    ensure_listeners_deleted-AllDeleted :
        (lb_id : Str) (listeners : List Listener) (s t : State)
        → ensure_listeners_deleted c lb_id listeners s ≡ (ok tt, t)
        → AllDeleted lb_id listeners s t
    unfolding ensure_listeners_deleted
    ensure_listeners_deleted-AllDeleted lb_id [] s t h =
        ap (λ (y : Outcome (Unit {0}) × State). y.1) h
    ensure_listeners_deleted-AllDeleted lb_id (ln ∷ listeners) s t h =
        let (_, u, e, h1) = >>=-eq-ok (ensure_listener_deleted c lb_id ln) _ s h in
        (
          u,
          e,
          ensure_listener_deleted-Applied lb_id ln s u e,
          ensure_listeners_deleted-AllDeleted lb_id listeners u t h1,
        )

    delete_found_loadbalancer-TornDown :
        (config : Config) (svc : Service) (lb : Loadbalancer IP) (s t : State)
        → delete_found_loadbalancer c config svc lb s ≡ (ok tt, t)
        → TornDown lb s
    unfolding delete_found_loadbalancer
    delete_found_loadbalancer-TornDown config svc lb s t h =
        let list_text : String = "error getting listeners for LB %s: " in
        let delete_text : String = "failed to delete loadbalancer %s: " in
        let (listeners, u, e, h1) =
          >>=-eq-ok (quoting list_text (loadbalancers.listener_list lb.id)) _ s h in
        let (_, v, e1, h2) = >>=-eq-ok (ensure_listeners_deleted c lb.id listeners) _ u h1 in
        let (_, x, e2, _) =
          >>=-eq-ok (wrapping delete_text (delete_load_balancer c lb.id)) _ v h2 in
        let (w, deleted, gone) =
          delete_load_balancer-eq-ok lb.id v x
            (wrapping-eq-ok delete_text (delete_load_balancer c lb.id) v e2) in
        (
          listeners,
          u,
          v,
          w,
          x,
          quoting-eq-ok list_text (loadbalancers.listener_list lb.id) s e,
          ensure_listeners_deleted-AllDeleted lb.id listeners u v e1,
          deleted,
          gone,
        )

    pub ensure_load_balancer_deleted-TornDown :
        (config : Config) (svc : Service) (s t : State)
        → ensure_load_balancer_deleted c config svc s ≡ (ok tt, t)
        → ((lb : Loadbalancer IP) × (u : State) × (find_loadbalancer c config svc s ≡ (ok lb, u))
            × TornDown lb u)
          ⊎ ((e : Err) × (find_loadbalancer c config svc s ≡ (err e, t))
              × (error_is e not_found ≡ true))
    unfolding ensure_load_balancer_deleted
    ensure_load_balancer_deleted-TornDown config svc s t h =
        by_outcome (find_loadbalancer c config svc s) refl h
      where
        by_outcome :
            (x : Outcome (Loadbalancer IP) × State)
            → find_loadbalancer c config svc s ≡ x
            → (let (r, u) = x in continue (caught r) (delete_found c config svc) u) ≡ (ok tt, t)
            → ((lb : Loadbalancer IP) × (u : State) × (find_loadbalancer c config svc s
                  ≡ (ok lb, u))
                × TornDown lb u)
              ⊎ ((e : Err) × (find_loadbalancer c config svc s ≡ (err e, t))
                  × (error_is e not_found ≡ true))
        by_outcome (ok lb, u) e h = inl (
          lb,
          u,
          e,
          delete_found_loadbalancer-TornDown config svc lb u t
              (delete_found-some c config svc lb u t h),
        )
        by_outcome (err x, u) e h =
            let (same, kind) = delete_found-none c config svc x u t h in
            inr (x, e ∙ ap (λ (v : State). (err x, v)) same, kind)
        by_outcome (panic, u) e h = ground arith
