-- ===== src/Loadbalancer/Delete/Gone.antt =====
-- What a successful EnsureLoadBalancerDeleted of internal/edgecenter/loadbalancer.go tells.
use edgecenter_ccm.Prelude.{
  Str, Bool, true, false, not, ◌⊎◌, inl, inr, Err, not_found, error_is, Outcome, ok, err, panic,
  pure, caught, wrapping, quoting, >>=-eq-ok, wrapping-eq-ok, ◌≡◌, refl, ap, ◌∙◌, arith, Bool-cases,
  continue,
}
use edgecenter_ccm.Cloud.Types.{Service, Loadbalancer}
use edgecenter_ccm.Cloud.Client.{Client}
use edgecenter_ccm.Cloud.Wait.{IsBackoff}
use edgecenter_ccm.Loadbalancer.Options.Config.{Config}
use edgecenter_ccm.Loadbalancer.Retry.{deleted_check, wait_deleted, delete_steps}
use edgecenter_ccm.Loadbalancer.Retry.Success.{mapped-eq-ok}
use edgecenter_ccm.Loadbalancer.Find.{find_loadbalancer}
use edgecenter_ccm.Loadbalancer.Delete.{
  delete_found, delete_found_loadbalancer, delete_load_balancer, ensure_listeners_deleted,
  ensure_load_balancer_deleted,
}

module _ (c : Client) where
  open c use {State, IP}

  pub delete_found-some :
      (config : Config) (svc : Service) (lb : Loadbalancer IP) (u t : State)
      → delete_found c config svc (inr lb) u ≡ (ok tt, t)
      → delete_found_loadbalancer c config svc lb u ≡ (ok tt, t)
  unfolding delete_found
  delete_found-some config svc lb u t h = h

  pub delete_found-none :
      (config : Config) (svc : Service) (e : Err) (u t : State)
      → delete_found c config svc (inl e) u ≡ (ok tt, t)
      → (u ≡ t) × (error_is e not_found ≡ true)
  unfolding delete_found
  delete_found-none config svc e u t h = elim (Bool-cases (error_is e not_found)) [
    | inl b ↦ (ground arith, b)
    | inr b ↦ ground arith
  ]

module _ (c : Client) (waits : IsBackoff c.backoff) where
  open c use {State, IP, loadbalancers, backoff}

  -- The API answered that there is no such load balancer.
  abbrev pub SeenGone : Str → Type 0
  SeenGone id = (u v : State) × (loadbalancers.is_exist id u ≡ (ok false, v))

  deleted_check-SeenGone :
      (id : Str) (w : Unit {0}) (s : State) (end : Unit {0} × State)
      → deleted_check c id (w, s) ≡ (ok true, end)
      → SeenGone id
  unfolding deleted_check
  deleted_check-SeenGone id w s end h = by_answer (loadbalancers.is_exist id s) refl h
    where
      by_answer :
          (x : Outcome Bool × State)
          → loadbalancers.is_exist id s ≡ x
          → (let (r, t) = x in
              continue {S = Unit {0} × State} r (λ exists. pure (not exists)) (w, t))
            ≡ (ok true, end)
          → SeenGone id
      by_answer (ok true, t) e h = ground arith
      by_answer (ok false, t) e h = (s, t, e)
      by_answer (err x, t) e h = ground arith
      by_answer (panic, t) e h = ground arith

  wait_deleted-SeenGone : (id : Str) (s t : State) → wait_deleted c id s ≡ (ok tt, t) → SeenGone id
  unfolding wait_deleted
  wait_deleted-SeenGone id s t h =
      let run = backoff (Unit {0}) delete_steps (deleted_check c id) (tt, s) in
      let (w, u, _, last) =
        waits.done (Unit {0}) delete_steps (deleted_check c id) (λ w. Unit {0}) (λ v w s t p e. tt)
          tt s (run.1.0, t) tt (ended run (mapped-eq-ok _ (run.0, run.1.1) h)) in
      deleted_check-SeenGone id w u (run.1.0, t) last
    where
      ended :
          (x : Outcome (Unit {0}) × (Unit {0} × State))
          → ◌≡◌ {A = Outcome (Unit {0}) × State} (x.0, x.1.1) (ok tt, t)
          → x ≡ (ok tt, (x.1.0, t))
      ended x e = ground arith

  delete_found_loadbalancer-SeenGone :
      (config : Config) (svc : Service) (lb : Loadbalancer IP) (s t : State)
      → delete_found_loadbalancer c config svc lb s ≡ (ok tt, t)
      → SeenGone lb.id
  unfolding delete_found_loadbalancer
  delete_found_loadbalancer-SeenGone config svc lb s t h =
      let (listeners, s1, _, h1) =
        >>=-eq-ok
          (quoting "error getting listeners for LB %s: " (loadbalancers.listener_list lb.id)) _ s
          h in
      let (_, s2, _, h2) = >>=-eq-ok (ensure_listeners_deleted c lb.id listeners) _ s1 h1 in
      let (_, s3, _, h3) =
        >>=-eq-ok (wrapping "failed to delete loadbalancer %s: " (delete_load_balancer c lb.id)) _
          s2 h2 in
      let (_, s4, e4, _) =
        >>=-eq-ok (wrapping "failed to delete loadbalancer %s: " (wait_deleted c lb.id)) _ s3 h3 in
      wait_deleted-SeenGone lb.id s3 s4
        (wrapping-eq-ok "failed to delete loadbalancer %s: " (wait_deleted c lb.id) s3 e4)

  -- Where the backoff loop behaves as documented: when a deletion returns no error, the API answered that the load balancer found for the
  -- Service does not exist any more, or the lookup had found none, and then nothing else was done.
  pub ensure_load_balancer_deleted-SeenGone :
      (config : Config) (svc : Service) (s t : State)
      → ensure_load_balancer_deleted c config svc s ≡ (ok tt, t)
      → ((lb : Loadbalancer IP) × (u : State) × (find_loadbalancer c config svc s ≡ (ok lb, u))
          × SeenGone lb.id)
        ⊎ ((e : Err) × (find_loadbalancer c config svc s ≡ (err e, t))
            × (error_is e not_found ≡ true))
  unfolding ensure_load_balancer_deleted
  ensure_load_balancer_deleted-SeenGone config svc s t h =
      by_outcome (find_loadbalancer c config svc s) refl h
    where
      by_outcome :
          (x : Outcome (Loadbalancer IP) × State)
          → find_loadbalancer c config svc s ≡ x
          → (let (r, u) = x in continue (caught r) (delete_found c config svc) u) ≡ (ok tt, t)
          → ((lb : Loadbalancer IP) × (u : State) × (find_loadbalancer c config svc s ≡ (ok lb, u))
              × SeenGone lb.id)
            ⊎ ((e : Err) × (find_loadbalancer c config svc s ≡ (err e, t))
                × (error_is e not_found ≡ true))
      by_outcome (ok lb, u) e h = inl (
        lb,
        u,
        e,
        delete_found_loadbalancer-SeenGone config svc lb u t
            (delete_found-some c config svc lb u t h),
      )
      by_outcome (err x, u) e h =
          let (same, kind) = delete_found-none c config svc x u t h in
          inr (x, e ∙ ap (λ (v : State). (err x, v)) same, kind)
      by_outcome (panic, u) e h = ground arith
