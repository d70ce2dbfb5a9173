-- ===== src/Tests/Started.antt =====
-- The controller manager on a small configuration: a run of main.
use edgecenter_ccm.Prelude.{
  ◌⊎◌, ℕ, Str, Option, some, false, [], codes, str_eq, int_eq, nat_eq, split, trim_space, Exec,
  Outcome, ok, err, panic, ◌≡◌, refl, arith,
}
use edgecenter_ccm.Provider.Config.{read_config}
use edgecenter_ccm.Provider.Options.{Edgecenter, check_edgecenter_opts}
use edgecenter_ccm.Provider.Create.{HttpClient, new_edgecenter, new_edgecenter_client, ca_pool}
use edgecenter_ccm.Provider.Start.{create_provider, Manager, main}
use edgecenter_ccm.Provider.Start.Made.{Helped, IsRegistry, RanWith, StartedFrom, main-RanWith}
use edgecenter_ccm.Tests.Provider.{offline, parse_config}

abbrev Object : Type 0
Object = Edgecenter (HttpClient ℕ)

abbrev factory : Option Str → Exec ℕ Object
factory = create_provider offline parse_config []

abbrev found : Outcome Object → Outcome (Option Object)
found (ok p) = ok (some p)
found (err e) = err e
found panic = panic

-- Every library call succeeds; the registry calls the factory with a file.
abbrev calm : Manager ℕ Object
calm = record {
  Options = Str;
  Config = Str;
  Initializers = ℕ;
  new_options = λ n. (ok [], n);
  with_provider_name = λ name options. name;
  config = λ options n. (ok options, n);
  parse_flags = λ options n. (ok (some false), n);
  cloud_name = λ cfg. cfg;
  cloud_config_file = λ cfg. codes "cloud.conf";
  init_cloud_provider =
      λ registered make name file n. let (r, m) = make (some []) n in (found r, m);
  construct_initializers = λ cfg cloud. 0;
  run = λ cfg cloud initializers n. (ok tt, n);
}

found-some :
    (x : Outcome Object × ℕ) (cloud : Object) (t : ℕ)
    → ◌≡◌ {A = Outcome (Option Object) × ℕ} (found x.0, x.1) (ok (some cloud), t)
    → x ≡ (ok cloud, t)
found-some (ok p, n) cloud t h = ground arith
found-some (err e, n) cloud t h = ground arith
found-some (panic, n) cloud t h = ground arith

calm-IsRegistry : IsRegistry calm
calm-IsRegistry make name file s t cloud h =
    (some [], s, t, found-some (make (some []) s) cloud t h)

main-RanWith_example :
    Helped calm 0 0
    ⊎ RanWith calm (λ cloud reader. StartedFrom offline parse_config [] reader cloud) 0
unfolding main create_provider read_config new_edgecenter new_edgecenter_client str_eq codes ca_pool
    check_edgecenter_opts int_eq nat_eq split trim_space
main-RanWith_example = main-RanWith offline parse_config [] calm 0 0 calm-IsRegistry refl
