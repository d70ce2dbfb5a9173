-- ===== src/Provider/Create/Accepted.antt =====
-- When NewEdgecenter of internal/edgecenter/edgecenter.go makes an object, and what is in it.
use edgecenter_ccm.Prelude.{
  neq_of_==, Str, Bool, true, false, List, [], ◌⊎◌, inl, inr, pos, Err, ◌==◌, str_eq, int_eq,
  nat_eq, if◌then◌else◌, Outcome, ok, err, panic, pure, wrapping, ◌>>=◌, >>=-eq-ok, pure-eq-ok,
  guard-passed, codes, ◌≡◌, ◌≢◌, refl, sym, ◌∙◌, ap, subst, arith, ok_injective,
}
use edgecenter_ccm.Metadata.Order.Valid.{IsValid, check_metadata_search_order-IsValid_iff}
use edgecenter_ccm.Provider.Config.{ProviderConfig, EdgecenterOpts, LoadBalancerOpts}
use edgecenter_ccm.Provider.Options.{
  Edgecenter, check_edgecenter_opts, check_monitor, check_config_search_order,
}
use edgecenter_ccm.Provider.Options.Order.{check_config_search_order-check_metadata_search_order}
use edgecenter_ccm.Provider.Create.{
  Networking, HttpClient, RoundTripper, instrumented, ca_pool, client_opts, client_of,
  new_edgecenter_client, new_edgecenter, accepted,
}

-- The settings that a health monitor needs
abbrev pub HasMonitor : LoadBalancerOpts → Type 0
HasMonitor opts =
    (opts.monitor_delay ≢ pos 0) × (opts.monitor_timeout ≢ pos 0) × (opts.monitor_max_retries ≢ 0)

test-passed :
    {A : Type 0} (b : Bool) (e : Err) {next : Outcome A} {a : A}
    → (if b then err e else next) ≡ ok a
    → (b ≡ false) × (next ≡ ok a)
test-passed true e h = ground arith
test-passed false e h = (refl, h)

check_monitor-HasMonitor :
    (opts : LoadBalancerOpts) (next : Outcome (Unit {0}))
    → check_monitor opts next ≡ ok tt
    → HasMonitor opts × (next ≡ ok tt)
unfolding check_monitor
check_monitor-HasMonitor opts next h =
    let (delay, h1) = test-passed (opts.monitor_delay == pos 0) _ h in
    let (timeout, h2) = test-passed (opts.monitor_timeout == pos 0) _ h1 in
    let (retries, h3) = test-passed (opts.monitor_max_retries == 0) _ h2 in
    ((neq_of_== delay, neq_of_== timeout, neq_of_== retries), h3)

module _ {State : Type 0} (net : Networking State) where
  open net use {Transport}

  -- A client that carries the key, which is not empty, and whose requests are counted
  abbrev pub IsCounted : EdgecenterOpts → HttpClient Transport → Type 0
  IsCounted cfg made =
      (cfg.api_token ≢ [])
      × (made.made_with.api_key ≡ cfg.api_token)
      × ((next : RoundTripper Transport) × (made.transport ≡ instrumented next))

  new_edgecenter_client-IsCounted :
      (cfg : EdgecenterOpts) (agent : Str) (extra : List Str) (made : HttpClient Transport)
      (s t : State)
      → new_edgecenter_client net cfg agent extra s ≡ (ok made, t)
      → IsCounted cfg made
  unfolding new_edgecenter_client client_of client_opts
  new_edgecenter_client-IsCounted cfg agent extra made s t h =
      let (token, h1) = guard-passed (cfg.api_token == []) _ _ s h in
      let opts = client_opts net cfg agent extra in
      let (left, u, _, h2) =
        >>=-eq-ok (wrapping "failed to create edgecenter client: " (net.new_with_retries opts))
          (λ left. do pool ← ca_pool net cfg; pure (client_of net cfg opts left pool)) s h1 in
      let (pool, v, _, h3) =
        >>=-eq-ok (ca_pool net cfg) (λ pool. pure (client_of net cfg opts left pool)) u h2 in
      let same : client_of net cfg opts left pool ≡ made = pure-eq-ok h3 in
      subst (IsCounted cfg) same (neq_of_== token, refl, (_, refl))

  checked-ok :
      (gcr made : Edgecenter (HttpClient Transport)) (r : Outcome (Unit {0}))
      → accepted net made r ≡ ok gcr
      → (made ≡ gcr) × (r ≡ ok tt)
  unfolding accepted
  checked-ok gcr made (ok tt) h = (ok_injective h, refl)
  checked-ok gcr made (err e) h = ground arith
  checked-ok gcr made panic h = ground arith

  check_edgecenter_opts-Checked :
      (ec : Edgecenter (HttpClient Transport))
      → check_edgecenter_opts ec ≡ ok tt
      → ((ec.lb_opts.create_monitor ≡ false) ⊎ HasMonitor ec.lb_opts)
        × (check_config_search_order ec.metadata_opts.search_order ≡ ok tt)
  unfolding check_edgecenter_opts
  check_edgecenter_opts-Checked ec h = by_monitor ec.lb_opts.create_monitor h
    where
      by_monitor :
          (b : Bool)
          → (if b
              then check_monitor ec.lb_opts
                  (check_config_search_order ec.metadata_opts.search_order)
              else check_config_search_order ec.metadata_opts.search_order)
            ≡ ok tt
          → ((b ≡ false) ⊎ HasMonitor ec.lb_opts)
            × (check_config_search_order ec.metadata_opts.search_order ≡ ok tt)
      by_monitor true h =
          let (set_up, order) = check_monitor-HasMonitor ec.lb_opts _ h in (inr set_up, order)
      by_monitor false h = (inl refl, h)

  -- What NewEdgecenter made of a configuration
  abbrev pub MadeOf : ProviderConfig → Edgecenter (HttpClient Transport) → Type 0
  MadeOf cfg gcr =
      IsCounted cfg.edgecenter gcr.client
      × (gcr.client.timeout ≡ cfg.metadata.request_timeout)
      × (gcr.cfg ≡ cfg)
      × (gcr.lb_opts ≡ cfg.load_balancer)
      × ((cfg.load_balancer.create_monitor ≡ false) ⊎ HasMonitor cfg.load_balancer)
      × IsValid cfg.metadata.search_order

  -- NewEdgecenter succeeds only on a configuration with a token, a valid search order and, where
  -- monitors are created, all settings of a monitor. The client of the object carries the token, counts its
  -- requests and has the configured timeout.
  pub new_edgecenter-MadeOf :
      (extra : List Str) (cfg : ProviderConfig) (gcr : Edgecenter (HttpClient Transport))
      (s t : State)
      → new_edgecenter net extra cfg s ≡ (ok gcr, t)
      → MadeOf cfg gcr
  unfolding new_edgecenter
  new_edgecenter-MadeOf extra cfg gcr s t h =
      let (made, u, e, h1) =
        >>=-eq-ok
          (new_edgecenter_client net cfg.edgecenter (codes "edgecenter-cloud-controller-manager")
            extra)
          _ s h in
      let counted = new_edgecenter_client-IsCounted cfg.edgecenter _ extra made s u e in
      let (same, passed) =
        checked-ok gcr _ _
          (ap (λ (x : Outcome (Edgecenter (HttpClient Transport)) × State). x.0) h1) in
      let (monitor, order) = check_edgecenter_opts-Checked _ passed in
      subst (MadeOf cfg) same (
        counted,
        refl,
        refl,
        refl,
        monitor,
        (check_metadata_search_order-IsValid_iff cfg.metadata.search_order).0 (
            sym (check_config_search_order-check_metadata_search_order cfg.metadata.search_order)
            ∙ order),
      )
