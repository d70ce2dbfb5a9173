-- ===== src/Provider/Config.antt =====
-- internal/edgecenter/edgecenter.go: the configuration file (Config and its sections, ReadConfig).
pub mod Defaults
use edgecenter_ccm.Prelude.{
  ℕ, Str, Option, none, some, Bool, List, [], Dict, ◌++◌, codes, ℤ, pos, ◌==◌, str_eq, int_eq,
  if◌then◌else◌, failure, Outcome, ok, err, panic,
}
use edgecenter_ccm.Loadbalancer.Options.Config.{LbClass}
use edgecenter_ccm.Instances.Addresses.{NetworkingOpts}
use edgecenter_ccm.Metadata.Search.{config_drive_id, metadata_id}

-- LoadBalancerOpts. A duration is in nanoseconds; a map and a slice may be nil.
pub record LoadBalancerOpts : Type 0 where
  pub lb_version : Str
  pub use_octavia : Bool
  pub subnet_id : Str
  pub network_id : Str
  pub floating_network_id : Str
  pub floating_subnet_id : Str
  pub lb_classes : Option (Dict LbClass)
  pub lb_method : Str
  pub lb_provider : Str
  pub create_monitor : Bool
  pub monitor_delay : ℤ
  pub monitor_timeout : ℤ
  pub monitor_max_retries : ℕ
  pub manage_security_groups : Bool
  pub node_security_group_ids : Option (List Str)
  pub internal_lb : Bool

pub record BlockStorageOpts : Type 0 where
  pub bs_version : Str
  pub trust_device_path : Bool
  pub ignore_volume_az : Bool

pub record RouterOpts : Type 0 where
  pub router_id : Str

pub record MetadataOpts : Type 0 where
  pub search_order : Str
  pub request_timeout : ℤ

pub record EdgecenterOpts : Type 0 where
  pub api_url : Str
  pub project_id : ℤ
  pub region_id : ℤ
  pub api_token : Str
  pub cluster_id : Str
  pub no_billing_tag : Bool
  pub region : Str
  pub ca_file : Str
  pub tls_insecure : Str
  pub ca_file_contents : Str

-- Config
pub record ProviderConfig : Type 0 where
  pub load_balancer : LoadBalancerOpts
  pub load_balancer_class : Option (Dict LbClass)
  pub block_storage : BlockStorageOpts
  pub route : RouterOpts
  pub metadata : MetadataOpts
  pub networking : NetworkingOpts
  pub edgecenter : EdgecenterOpts

abbrev pub default_search_order : Str
default_search_order = config_drive_id ++ (codes "," ++ metadata_id)

-- A minute
abbrev pub default_time_out : ℤ
default_time_out = pos 60000000000

abbrev pub with_default_order : Str → Str
with_default_order order = if order == [] then default_search_order else order

abbrev pub with_default_timeout : ℤ → ℤ
with_default_timeout t = if t == pos 0 then default_time_out else t

-- The defaults, and the classes' sections copied to the section of load balancers.
unfoldable pub with_defaults : ProviderConfig → ProviderConfig
with_defaults cfg = record cfg {
  load_balancer = record cfg.load_balancer { lb_classes = cfg.load_balancer_class };
  metadata = record {
    search_order = with_default_order cfg.metadata.search_order;
    request_timeout = with_default_timeout cfg.metadata.request_timeout;
  };
}

defaults_of : Outcome ProviderConfig → Outcome ProviderConfig
unfolding with_defaults
defaults_of (ok cfg) = ok (with_defaults cfg)
defaults_of (err e) = err e
defaults_of panic = panic

-- ReadConfig: `parse` is gcfg, with the errors that are not fatal left out; no reader is `none`.
unfoldable pub read_config : (Str → Outcome ProviderConfig) → Option Str → Outcome ProviderConfig
unfolding defaults_of
read_config parse none = err (failure "no Edgecenter cloud provider config file given")
read_config parse (some text) = defaults_of (parse text)
