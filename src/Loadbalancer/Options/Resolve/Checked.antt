-- ===== src/Loadbalancer/Options/Resolve/Checked.antt =====
-- What resolveServiceOptions of internal/edgecenter/loadbalancer.go guarantees of its options.
use edgecenter_ccm.Prelude.{
  some, none, Str, Option, Bool, true, false, ◌&&◌, List, [], str_eq, if◌then◌else◌, Outcome, ok,
  Exec, pure, fail, lift, wrapping, codes, failure, ◌>>=◌, >>=-eq-ok, pure-eq-ok, ◌≡◌, refl, ap,
  sym, subst, ◌>>◌, arith, inl, inr, ◌⊎◌,
}
use edgecenter_ccm.Cloud.Types.{
  Service, Node, Algorithm, round_robin, source_ip, least_connections, other_algorithm, Persistence,
  persist_source_ip,
}
use edgecenter_ccm.Cloud.Client.{Client}
use edgecenter_ccm.Loadbalancer.Options.Annotations.{
  get_bool_from_service_annotation, parse_listener_timeouts, ListenerTimeouts,
}
use edgecenter_ccm.Loadbalancer.Options.Config.{Config, ServiceOptions}
use edgecenter_ccm.Loadbalancer.Options.Secrets.{get_secret_id}
use edgecenter_ccm.Loadbalancer.Options.Resolve.{
  resolve_service_options, client_ip_options, supported_method, detect_subnet, class_options,
  detect_floating_network, floating_network_known, check_protocols, check_source_ranges,
  affinity_persistence, initial_options, timeouts_or_none,
}

module _ (c : Client) where
  open c use {State, ip}

  pub client_ip_options-Exclusive :
      (svc : Service) (opts o : ServiceOptions) (s t : State)
      → client_ip_options c svc opts s ≡ (ok o, t)
      → (o.use_proxy_protocol && o.keep_client_ip ≡ false)
        × (o.internal ≡ opts.internal)
        × (o.floating_network_id ≡ opts.floating_network_id)
        × (o.lb_method ≡ opts.lb_method)
        × (o.session_persistence ≡ opts.session_persistence)
  unfolding client_ip_options
  client_ip_options-Exclusive svc opts o s t h =
      let (keep, s1, _, h1) =
        >>=-eq-ok
          (wrapping "failed to get X-Forwarded-For annotation: " (
            lift (
              get_bool_from_service_annotation svc
                (codes "loadbalancer.edgecenter.com/x-forwarded-for") false)))
          _ s h in
      let (proxy, s2, _, h2) =
        >>=-eq-ok
          (lift (
            get_bool_from_service_annotation svc
              (codes "loadbalancer.edgecenter.com/proxy-protocol") false))
          _ s1 h1 in
      by_flags proxy keep s2 h2
    where
      by_flags :
          (proxy keep : Bool) (s2 : State)
          → (let chosen : Exec State ServiceOptions =
                (if proxy && keep
                  then fail (failure "annotation %s and %s cannot be used together")
                  else pure (record opts { keep_client_ip = keep; use_proxy_protocol = proxy })) in
              chosen s2 ≡ (ok o, t))
          → (o.use_proxy_protocol && o.keep_client_ip ≡ false)
            × (o.internal ≡ opts.internal)
            × (o.floating_network_id ≡ opts.floating_network_id)
            × (o.lb_method ≡ opts.lb_method)
            × (o.session_persistence ≡ opts.session_persistence)
      by_flags true true s2 h = ground arith
      by_flags true false s2 h = ground arith
      by_flags false keep s2 h = ground arith

  floating_network_known-ok :
      (opts : ServiceOptions) (s t : State)
      → floating_network_known c opts s ≡ (ok tt, t)
      → (opts.internal ≡ true) ⊎ ¬ (opts.floating_network_id ≡ [])
  unfolding floating_network_known
  floating_network_known-ok opts s t h = by_flag opts.internal refl
    where
      by_flag :
          (b : Bool)
          → opts.internal ≡ b
          → (opts.internal ≡ true) ⊎ ¬ (opts.floating_network_id ≡ [])
      by_flag true e = inl e
      by_flag false e = inr (λ empty. ground arith)

  -- One of the three known methods is used as it is configured; in place of another one, such as
  -- SOURCE_IP_PORT, ROUND_ROBIN is used.
  abbrev pub MethodOf : Algorithm → Algorithm → Type 0
  MethodOf configured method =
      (((method ≡ round_robin) ⊎ ((method ≡ source_ip) ⊎ (method ≡ least_connections)))
        × (configured ≡ method))
      ⊎ ((name : Str) × (configured ≡ other_algorithm name) × (method ≡ round_robin))

  supported_method-MethodOf : (m : Algorithm) → MethodOf m (supported_method m)
  unfolding supported_method
  supported_method-MethodOf round_robin = inl (inl refl, refl)
  supported_method-MethodOf source_ip = inl (inr (inl refl), refl)
  supported_method-MethodOf least_connections = inl (inr (inr refl), refl)
  supported_method-MethodOf (other_algorithm name) = inr (name, refl, refl)

  -- Sessions are kept by the client's address for the affinity ClientIP, and not at all for None.
  abbrev pub PersistenceOf : Str → Option Persistence → Type 0
  PersistenceOf affinity p =
      ((affinity ≡ codes "ClientIP") × (p ≡ some persist_source_ip))
      ⊎ ((affinity ≡ codes "None") × (p ≡ none))

  affinity_persistence-PersistenceOf :
      (svc : Service) (p : Option Persistence)
      → affinity_persistence svc ≡ ok p
      → PersistenceOf svc.session_affinity p
  unfolding affinity_persistence
  affinity_persistence-PersistenceOf svc p h = ground arith

  abbrev pub Checked : Config → Service → ServiceOptions → Type 0
  Checked config svc opts =
      (opts.use_proxy_protocol && opts.keep_client_ip ≡ false)
      × ((opts.internal ≡ true) ⊎ ¬ (opts.floating_network_id ≡ []))
      × MethodOf config.lb_method opts.lb_method
      × PersistenceOf svc.session_affinity opts.session_persistence

  client_ip_options-Checked :
      (config : Config) (svc : Service) (o w : ServiceOptions) (p : Option Persistence)
      (s t : State)
      → (o.internal ≡ true) ⊎ ¬ (o.floating_network_id ≡ [])
      → affinity_persistence svc ≡ ok p
      → client_ip_options c svc
          (record o { session_persistence = p; lb_method = supported_method config.lb_method })
          s
        ≡ (ok w, t)
      → Checked config svc w
  client_ip_options-Checked config svc o w p s t known affinity h =
      let (exclusive, internal, floating, method, persistence) =
        client_ip_options-Exclusive svc
          (record o { session_persistence = p; lb_method = supported_method config.lb_method }) w s
          t h in
      (
        exclusive,
        ground arith,
        subst (MethodOf config.lb_method) (sym method) (supported_method-MethodOf config.lb_method),
        subst (PersistenceOf svc.session_affinity) (sym persistence)
            (affinity_persistence-PersistenceOf svc p affinity),
      )

  completed-Checked :
      (config : Config) (svc : Service) (w opts : ServiceOptions)
      (timeouts : Option ListenerTimeouts) (secret_id : Str)
      → record w { timeouts = timeouts; secret_id = secret_id } ≡ opts
      → Checked config svc w
      → Checked config svc opts
  completed-Checked config svc w opts timeouts secret_id e h = subst (Checked config svc) e h

  -- Options that are resolved without an error never ask for both the proxy protocol and
  -- X-Forwarded-For, and name a floating network unless the load balancer is internal. The configured
  -- load balancing method is used if it is ROUND_ROBIN, SOURCE_IP or LEAST_CONNECTIONS, and
  -- ROUND_ROBIN in place of any other. The affinity ClientIP gives persistence by source IP, None
  -- gives none, and there is no third one.
  pub resolve_service_options-Checked :
      (config : Config) (svc : Service) (nodes : List Node) (opts : ServiceOptions) (s t : State)
      → resolve_service_options c config svc nodes s ≡ (ok opts, t)
      → Checked config svc opts
  unfolding resolve_service_options
  resolve_service_options-Checked config svc nodes opts s t h =
      let (with_subnet, s1, _, h1) =
        >>=-eq-ok (detect_subnet c nodes (initial_options config svc)) _ s h in
      let (with_class, s2, _, h2) =
        >>=-eq-ok (lift (class_options config svc with_subnet)) _ s1 h1 in
      let (o, s3, _, h3) = >>=-eq-ok (detect_floating_network c with_class) _ s2 h2 in
      checked_after o s3 h3
    where
      checked_after :
          (o : ServiceOptions) (s3 : State)
          → (do
            floating_network_known c o
            lift (check_protocols config svc)
            lift (check_source_ranges ip.parse_cidr config svc o)
            persistence ← lift (affinity_persistence svc)
            with_client_ip ← client_ip_options c svc (record o {
              session_persistence = persistence;
              lb_method = supported_method config.lb_method;
            })
            secret_id ← get_secret_id c config svc
            pure (record with_client_ip {
              timeouts = timeouts_or_none (parse_listener_timeouts svc);
              secret_id = secret_id;
            }))
              s3
            ≡ (ok opts, t)
          → Checked config svc opts
      checked_after o s3 h3 =
          let (_, s4, e4, h4) = >>=-eq-ok (floating_network_known c o) _ s3 h3 in
          let (_, s5, _, h5) = >>=-eq-ok (lift (check_protocols config svc)) _ s4 h4 in
          let (_, s6, _, h6) =
            >>=-eq-ok (lift (check_source_ranges ip.parse_cidr config svc o)) _ s5 h5 in
          let (persistence, s7, e7, h7) = >>=-eq-ok (lift (affinity_persistence svc)) _ s6 h6 in
          let (w, s8, e8, h8) =
            >>=-eq-ok
              (client_ip_options c svc (record o {
                session_persistence = persistence;
                lb_method = supported_method config.lb_method;
              }))
              _ s7 h7 in
          let (secret_id, s9, _, h9) = >>=-eq-ok (get_secret_id c config svc) _ s8 h8 in
          completed-Checked config svc w opts (timeouts_or_none (parse_listener_timeouts svc))
            secret_id (pure-eq-ok h9)
            (client_ip_options-Checked config svc o w persistence s7 s8
              (floating_network_known-ok o s3 s4 e4)
              (ap (λ (x : Outcome (Option Persistence) × State). x.0) e7) e8)
