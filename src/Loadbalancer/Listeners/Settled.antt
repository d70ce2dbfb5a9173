-- ===== src/Loadbalancer/Listeners/Settled.antt =====
-- A listener that ensureLoadBalancerListeners of internal/edgecenter/loadbalancer_listeners.go created
-- is taken as it is in the next synchronisation.
use edgecenter_ccm.Prelude.{
  Str, Option, none, some, Bool, true, false, List, [], ◌∷◌, ◌++◌, find, str_eq, nat_eq, int_eq,
  ==_iff, ok, ◌≡◌, refl, arith, All,
}
use edgecenter_ccm.Cloud.Types.{ServicePort, Loadbalancer, Listener, ListenerCreate, protocol_eq}
use edgecenter_ccm.Cloud.Client.{Client}
use edgecenter_ccm.Loadbalancer.Options.Annotations.{ListenerTimeouts}
use edgecenter_ccm.Loadbalancer.Options.Config.{ServiceOptions}
use edgecenter_ccm.Loadbalancer.Listeners.{
  build_listener_create_request, listener_changes, matches_port, find_listener_for_service_port,
  update_listener_if_needed, ensure_listener, reload, want_protocol, or_unset,
}
use edgecenter_ccm.Loadbalancer.Listeners.Changes.{listener_changes-eq-false_iff, HasParsedTimeouts}

-- The listener that the API shows where it made it as it was asked to.
abbrev pub as_asked : Str → ListenerCreate → Listener
as_asked id req = record {
  id = id;
  name = req.name;
  protocol = req.protocol;
  protocol_port = req.protocol_port;
  secret_id = req.secret_id;
  timeout_client_data = req.timeout_client_data;
  timeout_member_data = req.timeout_member_data;
  timeout_member_connect = req.timeout_member_connect;
}

-- The timeouts that a listener was created with are those that are compared.
asked-HasParsedTimeouts :
    (ln : Listener) (t : Option ListenerTimeouts)
    → ln.timeout_client_data ≡ (or_unset t).client_data
    → ln.timeout_member_data ≡ (or_unset t).member_data
    → ln.timeout_member_connect ≡ (or_unset t).member_connect
    → HasParsedTimeouts ln t
asked-HasParsedTimeouts ln none p q r = tt
asked-HasParsedTimeouts ln (some t) p q r = (p, q, r)

find_behind :
    {A : Type 0} (p : A → Bool) (before rest : List A) (a : A)
    → All (λ x. p x ≡ false) before
    → p a ≡ true
    → find p (before ++ (a ∷ rest)) ≡ some a
find_behind p [] rest a others h = ground arith
find_behind p (x ∷ before) rest a (other, others) h =
    ground (arith, find_behind p before rest a others h)

module _ (id lb_id lb_name : Str) (port : ServicePort) (opts : ServiceOptions) where
  -- The listener that the API shows for a port's request
  abbrev pub made : Listener
  made = as_asked id (build_listener_create_request lb_id lb_name port opts)

  made-matches_port : matches_port port opts made ≡ true
  unfolding build_listener_create_request
  made-matches_port = ground (
    arith,
    (==_iff (want_protocol port opts) (want_protocol port opts)).1 refl,
    (==_iff port.port port.port).1 refl,
  )

  made-listener_changes : (listener_changes made opts).1 ≡ false
  unfolding build_listener_create_request
  made-listener_changes =
      (listener_changes-eq-false_iff made opts).1
        (refl, asked-HasParsedTimeouts made opts.timeouts refl refl refl)

module _ (c : Client) where
  open c use {State, IP}

  update_listener_if_needed-unchanged :
      (lb_id : Str) (ln : Listener) (opts : ServiceOptions) (s : State)
      → (listener_changes ln opts).1 ≡ false
      → update_listener_if_needed c lb_id ln opts s ≡ (ok tt, s)
  unfolding update_listener_if_needed
  update_listener_if_needed-unchanged lb_id ln opts s h = rw h refl

  pub ensure_listener-unchanged :
      (lb : Loadbalancer IP) (opts : ServiceOptions) (existing : List Listener) (port : ServicePort)
      (ln : Listener) (s : State)
      → find_listener_for_service_port existing port opts ≡ some ln
      → (listener_changes ln opts).1 ≡ false
      → ensure_listener c lb opts existing port s ≡ reload c ln.id s
  unfolding ensure_listener reload
  ensure_listener-unchanged lb opts existing port ln s found same =
      ground (arith, update_listener_if_needed-unchanged lb.id ln opts s same)

  -- A listener that the API shows as it was asked to make it for a port, where no listener before it
  -- in the list fits the port, is the port's listener in the next synchronisation with the same
  -- options: it is neither created nor updated again, but only read.
  pub ensure_listener-made :
      (id : Str) (lb : Loadbalancer IP) (opts : ServiceOptions) (port : ServicePort)
      (before rest : List Listener) (s : State)
      → All (λ ln. matches_port port opts ln ≡ false) before
      → ensure_listener c lb opts (before ++ (made id lb.id lb.name port opts ∷ rest)) port s
        ≡ reload c id s
  unfolding find_listener_for_service_port
  ensure_listener-made id lb opts port before rest s others =
      let ln : Listener = made id lb.id lb.name port opts in
      ensure_listener-unchanged lb opts (before ++ (ln ∷ rest)) port ln s
        (find_behind (matches_port port opts) before rest ln others
          (made-matches_port id lb.id lb.name port opts))
        (made-listener_changes id lb.id lb.name port opts)
