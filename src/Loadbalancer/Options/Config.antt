-- ===== src/Loadbalancer/Options/Config.antt =====
-- The configuration that the load balancer reads (internal/edgecenter/edgecenter.go), and the
-- options that are resolved for a Service (ServiceOptions of loadbalancer.go).
use edgecenter_ccm.Prelude.{ℕ, ℤ, Str, Option, Bool, Dict}
use edgecenter_ccm.Cloud.Types.{Algorithm, Persistence}
use edgecenter_ccm.Loadbalancer.Options.Annotations.{ListenerTimeouts}

pub record LbClass : Type 0 where
  pub floating_network_id : Str
  pub floating_subnet_id : Str
  pub subnet_id : Str
  pub network_id : Str

-- LoadBalancerOpts, and the project, the region and the cluster of EdgecenterOpts. Durations are in whole seconds.
pub record Config : Type 0 where
  pub use_octavia : Bool
  pub subnet_id : Str
  pub network_id : Str
  pub floating_network_id : Str
  pub lb_classes : Dict LbClass
  pub lb_method : Algorithm
  pub create_monitor : Bool
  pub monitor_delay : ℕ
  pub monitor_timeout : ℕ
  pub monitor_max_retries : ℕ
  pub manage_security_groups : Bool
  pub internal_lb : Bool
  pub project_id : ℤ
  pub region_id : ℤ
  pub cluster_id : Str

pub record ServiceOptions : Type 0 where
  pub flavor_id : Str
  pub network_id : Str
  pub subnet_id : Str
  pub floating_network_id : Str
  pub internal : Bool
  pub keep_client_ip : Bool
  pub use_proxy_protocol : Bool
  pub secret_id : Str
  pub timeouts : Option ListenerTimeouts
  pub lb_method : Algorithm
  pub session_persistence : Option Persistence
  pub create_monitor : Bool
  pub manage_security_groups : Bool
