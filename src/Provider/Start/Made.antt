-- ===== src/Provider/Start/Made.antt =====
-- What the controller manager of cmd/main.go runs with.
use edgecenter_ccm.Prelude.{
  refl, Str, Option, none, some, Bool, true, false, List, ◌⊎◌, inl, inr, Err, Exec, Outcome, ok,
  err, panic, pure, lift, attempt, attempt-eq-ok, ◌>>=◌, >>=-eq-ok, ◌≡◌, ap, ◌∙◌, arith,
}
use edgecenter_ccm.Provider.Config.{ProviderConfig, read_config}
use edgecenter_ccm.Provider.Config.Defaults.{CompletedFrom, read_config-CompletedFrom}
use edgecenter_ccm.Provider.Options.{Edgecenter}
use edgecenter_ccm.Provider.Create.{Networking, HttpClient, new_edgecenter}
use edgecenter_ccm.Provider.Create.Accepted.{MadeOf, new_edgecenter-MadeOf}
use edgecenter_ccm.Provider.Services.{provider_name}
use edgecenter_ccm.Provider.Start.{
  create_provider, Ending, returned, Manager, handle_panic, after_panic, ended, with_cloud,
  with_config, run_command, executed, with_options, main,
}

module _ {State : Type 0} (net : Networking State) (parse : Str → Outcome ProviderConfig)
    (extra : List Str) where
  open net use {Transport}

  -- A provider object that was made of a configuration text with its defaults
  abbrev pub StartedFrom : Option Str → Edgecenter (HttpClient Transport) → Type 0
  StartedFrom reader gcr =
      (text : Str) × (raw : ProviderConfig) × (cfg : ProviderConfig) × (reader ≡ some text)
      × (parse text ≡ ok raw)
      × CompletedFrom raw cfg
      × MadeOf net cfg gcr

  create_provider-StartedFrom :
      (reader : Option Str) (gcr : Edgecenter (HttpClient Transport)) (s t : State)
      → create_provider net parse extra reader s ≡ (ok gcr, t)
      → StartedFrom reader gcr
  unfolding create_provider
  create_provider-StartedFrom reader gcr s t h =
      let (cfg, u, e, h1) =
        >>=-eq-ok (lift (read_config parse reader)) (new_edgecenter net extra) s h in
      let (text, raw, given, parsed, completed) =
        read_config-CompletedFrom parse reader cfg
          (ap (λ (x : Outcome ProviderConfig × State). x.0) e) in
      (text, raw, cfg, given, parsed, completed, new_edgecenter-MadeOf net extra cfg gcr u t h1)

handle_panic-eq-returned :
    {State : Type 0} (m : Exec State Ending) (s t : State)
    → handle_panic m s ≡ (ok returned, t)
    → m s ≡ (ok returned, t)
unfolding handle_panic
handle_panic-eq-returned {State = State} m s t h = by_outcome (m s) h
  where
    by_outcome :
        (x : Outcome Ending × State)
        → ◌≡◌ {A = Outcome Ending × State} (after_panic x.0, x.1) (ok returned, t)
        → x ≡ (ok returned, t)
    by_outcome (ok e, u) h = h
    by_outcome (err e, u) h = h
    by_outcome (panic, u) h = ground arith

module _ {State Cloud : Type 0} (manager : Manager State Cloud) where
  open manager use {Options, Config}

  -- The registry makes a provider by calling the registered factory, with the file that it opened if
  -- there is one.
  abbrev pub IsRegistry : Type 0
  IsRegistry =
      (factory : Option Str → Exec State Cloud) (name file : Str) (s t : State) (cloud : Cloud)
      → manager.init_cloud_provider provider_name factory name file s ≡ (ok (some cloud), t)
      → (reader : Option Str) × (u : State) × (v : State) × (factory reader u ≡ (ok cloud, v))

  abbrev init_of : (Option Str → Exec State Cloud) → Config → Exec State (Option Cloud)
  init_of factory cfg =
      manager.init_cloud_provider provider_name factory (manager.cloud_name cfg)
        (manager.cloud_config_file cfg)

  abbrev run_of : Config → Cloud → Exec State (Unit {0})
  run_of cfg cloud = manager.run cfg cloud (manager.construct_initializers cfg cloud)

  -- The manager ran to its end on a provider that the factory made.
  abbrev pub RanWith : (Cloud → Option Str → Type 0) → State → Type 0
  RanWith Made t =
      (cfg : Config) × (cloud : Cloud) × (reader : Option Str) × (w : State) × Made cloud reader
      × (run_of cfg cloud w ≡ (ok tt, t))

  -- The command line asked for the help only.
  abbrev pub Helped : State → State → Type 0
  Helped s t =
      (options : Options) × (u : State) × (manager.new_options s ≡ (ok options, u))
      × (manager.parse_flags (manager.with_provider_name provider_name options) u ≡ (ok none, t))

  module _ (factory : Option Str → Exec State Cloud) (Made : Cloud → Option Str → Type 0)
      (made : (reader : Option Str) (cloud : Cloud) (s t : State)
        → factory reader s ≡ (ok cloud, t)
        → Made cloud reader)
      (registry : IsRegistry) where
    with_cloud-RanWith :
        (cfg : Config) (got : Err ⊎ Option Cloud) (s u t : State)
        → attempt (init_of factory cfg) s ≡ (ok got, u)
        → with_cloud manager factory cfg got u ≡ (ok returned, t)
        → RanWith Made t
    unfolding with_cloud
    with_cloud-RanWith cfg (inl e) s u t h k = ground arith
    with_cloud-RanWith cfg (inr none) s u t h k = ground arith
    with_cloud-RanWith cfg (inr (some cloud)) s u t h k =
        let (reader, v, w, e) =
          registry factory (manager.cloud_name cfg) (manager.cloud_config_file cfg) s u cloud
            (attempt-eq-ok (init_of factory cfg) s h) in
        let (ran, x, e1, k1) =
          >>=-eq-ok (attempt (run_of cfg cloud))
            (λ (ran : Err ⊎ Unit {0}). pure (ended manager factory ran)) u k in
        by_run reader (made reader cloud v w e) ran x e1 k1
      where
        by_run :
            (reader : Option Str)
            → Made cloud reader
            → (ran : Err ⊎ Unit {0}) (x : State) → attempt (run_of cfg cloud) u ≡ (ok ran, x)
            → ◌≡◌ {A = Outcome Ending × State} (ok (ended manager factory ran), x) (ok returned, t)
            → RanWith Made t
        by_run reader m (inl e) x e1 k1 = ground arith
        by_run reader m (inr _) x e1 k1 =
            let same : x ≡ t = ap (λ (y : Outcome Ending × State). y.1) k1 in
            (
              cfg,
              cloud,
              reader,
              u,
              m,
              attempt-eq-ok (run_of cfg cloud) u e1 ∙ ap (λ (y : State). (ok tt, y)) same,
            )

    with_config-RanWith :
        (got : Err ⊎ Config) (u t : State)
        → with_config manager factory got u ≡ (ok returned, t)
        → RanWith Made t
    unfolding with_config
    with_config-RanWith (inl e) u t h = ground arith
    with_config-RanWith (inr cfg) u t h =
        let (cloud, w, e, h1) =
          >>=-eq-ok (attempt (init_of factory cfg)) (with_cloud manager factory cfg) u h in
        with_cloud-RanWith cfg cloud u w t e h1

    abbrev start_of : Options → Exec State Ending
    start_of options = do got ← attempt (manager.config options); with_config manager factory got

    executed-RanWith :
        (options : Options) (flags : Err ⊎ Option Bool) (s t : State)
        → executed manager factory options flags s ≡ (ok returned, t)
        → ((flags ≡ inr none) × (s ≡ t)) ⊎ RanWith Made t
    unfolding executed run_command
    executed-RanWith options (inl e) s t h = ground arith
    executed-RanWith options (inr none) s t h =
        inl (refl, ap (λ (x : Outcome Ending × State). x.1) h)
    executed-RanWith options (inr (some true)) s t h = ground arith
    executed-RanWith options (inr (some false)) s t h =
        let (got, u, _, h1) =
          >>=-eq-ok (attempt (manager.config options)) (with_config manager factory) s
            (handle_panic-eq-returned (start_of options) s t h) in
        inr (with_config-RanWith got u t h1)

    with_options-RanWith :
        (got : Err ⊎ Options) (s t : State)
        → with_options manager factory got s ≡ (ok returned, t)
        → ((options : Options) × (got ≡ inr options)
            × (manager.parse_flags (manager.with_provider_name provider_name options) s
                ≡ (ok none, t)))
          ⊎ RanWith Made t
    unfolding with_options
    with_options-RanWith (inl e) s t h = ground arith
    with_options-RanWith (inr options) s t h =
        let named = manager.with_provider_name provider_name options in
        let (flags, u, e, h1) =
          >>=-eq-ok (attempt (manager.parse_flags named)) (executed manager factory named) s h in
        elim (executed-RanWith named flags u t h1) [
          | inl (asked, same) ↦ inl (
            options,
            refl,
            attempt-eq-ok (manager.parse_flags named) s (e ∙ (λ i. (ok (asked i), same i))),
          )
          | inr ran ↦ inr ran
        ]

    abbrev command_of : Exec State Ending
    command_of = do options ← attempt manager.new_options; with_options manager factory options

    main_returned :
        (s t : State) → main manager factory s ≡ (ok returned, t) → Helped s t ⊎ RanWith Made t
    unfolding main
    main_returned s t h =
        let (got, u, e, h1) =
          >>=-eq-ok (attempt manager.new_options) (with_options manager factory) s
            (handle_panic-eq-returned command_of s t h) in
        elim (with_options-RanWith got u t h1) [
          | inl (options, given, shown) ↦ inl (
            options,
            u,
            attempt-eq-ok manager.new_options s (e ∙ (λ i. (ok (given i), u))),
            shown,
          )
          | inr ran ↦ inr ran
        ]

module _ {State : Type 0} (net : Networking State) (parse : Str → Outcome ProviderConfig)
    (extra : List Str) where
  open net use {Transport}

  -- Where the registry of cloud providers makes a provider only by the registered factory: main
  -- returns only where the command line asked for the help alone, or after the manager has run to its
  -- end on a provider object that was made of a configuration file: the text was read and its
  -- defaults were filled in, and the object has its token, its valid search order and its timeout.
  pub main-RanWith :
      (manager : Manager State (Edgecenter (HttpClient Transport))) (s t : State)
      → IsRegistry manager
      → main manager (create_provider net parse extra) s ≡ (ok returned, t)
      → Helped manager s t
        ⊎ RanWith manager (λ cloud reader. StartedFrom net parse extra reader cloud) t
  main-RanWith manager s t registry h =
      main_returned manager (create_provider net parse extra)
        (λ cloud reader. StartedFrom net parse extra reader cloud)
        (create_provider-StartedFrom net parse extra) registry s t h
