-- ===== src/Provider/Start.antt =====
-- The start of the controller manager: the factory that init of internal/edgecenter/edgecenter.go
-- registers, and the command of cmd/main.go. The libraries of the manager, the command line and the
-- registry of cloud providers are parameters; what is printed is left out.
pub mod Made
use edgecenter_ccm.Prelude.{
  ℕ, Str, Option, none, some, Bool, true, false, not, ◌&&◌, List, [], ◌∷◌, ◌++◌, ◌⊎◌, inl, inr,
  String, codes, ◌==◌, str_eq, if◌then◌else◌, Err, Exec, Outcome, ok, err, panic, pure, lift,
  attempt, ◌>>=◌,
}
use edgecenter_ccm.Provider.Config.{ProviderConfig, read_config}
use edgecenter_ccm.Provider.Options.{Edgecenter}
use edgecenter_ccm.Provider.Create.{Networking, HttpClient, new_edgecenter}
use edgecenter_ccm.Provider.Services.{provider_name}

module _ {State : Type 0} (net : Networking State) (parse : Str → Outcome ProviderConfig)
    (extra : List Str) where
  open net use {Transport}

  -- The factory of init; `extra` is what the flag of AddExtraFlags gave.
  unfoldable pub create_provider : Option Str → Exec State (Edgecenter (HttpClient Transport))
  create_provider reader = do cfg ← lift (read_config parse reader); new_edgecenter net extra cfg

-- How a process or a function of it ends: by a return, by os.Exit, or by klog.Fatalf.
pub data Ending : Type 0 where
  returned : Ending
  exited : ℕ → Ending
  fatal : String → Ending

-- The libraries of the controller manager, for a type of cloud providers
pub record Manager (State Cloud : Type 0) : Type 1 where
  pub Options : Type 0
  pub Config : Type 0
  pub Initializers : Type 0
  -- options.NewCloudControllerManagerOptions, the field CloudProvider.Name, and s.Config
  pub new_options : Exec State Options
  pub with_provider_name : Str → Options → Options
  pub config : Options → Exec State Config
  -- the part of cobra's Execute before Run: whether the flag for the version is set; `none` where it
  -- only shows the help, and returns nil without calling Run
  pub parse_flags : Options → Exec State (Option Bool)
  -- the name and the configuration file of the completed configuration's cloud provider
  pub cloud_name : Config → Str
  pub cloud_config_file : Config → Str
  -- cloudprovider.InitCloudProvider, over the registered name and factory; a nil interface is `none`
  pub init_cloud_provider :
      Str → (Option Str → Exec State Cloud) → Str → Str → Exec State (Option Cloud)
  -- app.ConstructControllerInitializers and app.Run
  pub construct_initializers : Config → Cloud → Initializers
  pub run : Config → Cloud → Initializers → Exec State (Unit {0})

-- HandlePanic of internal/util/panicutil/panic.go, deferred: a panic ends the process with 1.
abbrev after_panic : Outcome Ending → Outcome Ending
after_panic (ok e) = ok e
after_panic (err e) = err e
after_panic panic = ok (exited 1)

unfoldable pub handle_panic : {State : Type 0} → Exec State Ending → Exec State Ending
handle_panic m s = let (r, t) = m s in (after_panic r, t)

module _ {State Cloud : Type 0} (manager : Manager State Cloud)
    (factory : Option Str → Exec State Cloud) where
  open manager use {Options, Config}

  abbrev pub ended : Err ⊎ Unit {0} → Ending
  ended (inl e) = exited 1
  ended (inr _) = returned

  unfoldable pub with_cloud : Config → Err ⊎ Option Cloud → Exec State Ending
  with_cloud cfg (inl e) = pure (fatal "Cloud provider could not be initialized: %v")
  with_cloud cfg (inr none) = pure (fatal "cloud provider is nil")
  with_cloud cfg (inr (some cloud)) = do
    ran ← attempt (manager.run cfg cloud (manager.construct_initializers cfg cloud))
    pure (ended ran)

  unfoldable pub with_config : Err ⊎ Config → Exec State Ending
  unfolding with_cloud
  with_config (inl e) = pure (exited 1)
  with_config (inr cfg) = do
    cloud ← attempt (
        manager.init_cloud_provider provider_name factory (manager.cloud_name cfg)
          (manager.cloud_config_file cfg))
    with_cloud cfg cloud

  -- Run of the command; PrintVersionAndExit exits with 0.
  unfoldable pub run_command : Bool → Options → Exec State Ending
  unfolding handle_panic with_config
  run_command version_flag s =
      let start : Exec State Ending = (do got ← attempt (manager.config s); with_config got) in
      handle_panic (if version_flag then pure (exited 0) else start)

  -- `if err := command.Execute(); err != nil`: cobra parses the flags before it calls
  -- Run, and does not call it where the flags ask for the help.
  unfoldable pub executed : Options → Err ⊎ Option Bool → Exec State Ending
  unfolding run_command
  executed s (inl e) = pure (exited 1)
  executed s (inr none) = pure returned
  executed s (inr (some version_flag)) = run_command version_flag s

  unfoldable pub with_options : Err ⊎ Options → Exec State Ending
  unfolding executed
  with_options (inl e) = pure (fatal "unable to initialize command options: %v")
  with_options (inr options) =
      let s = manager.with_provider_name provider_name options in
      do flags ← attempt (manager.parse_flags s); executed s flags

  -- main, without the registration of the flags
  unfoldable pub main : Exec State Ending
  unfolding with_options handle_panic
  main =
      let command : Exec State Ending = (do
        options ← attempt manager.new_options
        with_options options) in
      handle_panic command

-- logMetricsEndpointFromFlags: the addresses that it logs, by the flags and their values
abbrev bound_address : Option Str → List Str
bound_address none = []
bound_address (some mba) =
    if not (mba == []) then (codes "http://" ++ (mba ++ codes "/metrics")) ∷ [] else []

abbrev secure_address : Option Str → Option Str → List Str
secure_address (some bind) (some port) =
    if not (bind == []) && not (port == [])
    then (codes "https://" ++ (bind ++ (b':' ∷ (port ++ codes "/metrics")))) ∷ []
    else []
secure_address _ _ = []

unfoldable pub metrics_endpoints : (Str → Option Str) → List Str
metrics_endpoints get =
    bound_address (get (codes "metrics-bind-address"))
    ++ secure_address (get (codes "bind-address")) (get (codes "secure-port"))
