-- ===== src/Provider/Options.antt =====
-- internal/edgecenter/edgecenter.go: the object Edgecenter, the check of its options, and which of
-- the interfaces of a cloud provider it claims; NewRoutes of routes.go.
pub mod Order
use edgecenter_ccm.Prelude.{
  Str, Option, none, some, Bool, true, false, not, ◌&&◌, ◌||◌, List, [], ◌∷◌, codes, ltb, length,
  split, trim_space, pos, ◌==◌, nat_eq, str_eq, int_eq, if◌then◌else◌, failure, sentinel,
  no_router_id, Outcome, ok, err, panic,
}
use edgecenter_ccm.Instances.Addresses.{NetworkingOpts}
use edgecenter_ccm.Metadata.Search.{config_drive_id, metadata_id}
use edgecenter_ccm.Provider.Config.{
  LoadBalancerOpts, BlockStorageOpts, RouterOpts, MetadataOpts, EdgecenterOpts, ProviderConfig,
}

-- Edgecenter. The local instance ID, which its methods set, is the state of Provider/Identity.
pub record Edgecenter (Client : Type 0) : Type 0 where
  pub client : Client
  pub region : Str
  pub cfg : ProviderConfig
  pub lb_opts : LoadBalancerOpts
  pub bs_opts : BlockStorageOpts
  pub route_opts : RouterOpts
  pub metadata_opts : MetadataOpts
  pub networking_opts : NetworkingOpts

-- checkMetadataSearchOrder: the same test stands in internal/util/metadata/metadata.go.
abbrev is_source : Str → Bool
is_source id = id == config_drive_id || id == metadata_id

unfoldable pub check_order_elements : List Str → Outcome (Unit {0})
check_order_elements [] = ok tt
check_order_elements (id ∷ elements) =
    if is_source (trim_space id)
    then check_order_elements elements
    else err (
        failure
          "invalid element %q found in section [Metadata] with key `search-order`.Supported elements include %q and %q")

unfoldable pub check_config_search_order : Str → Outcome (Unit {0})
unfolding check_order_elements
check_config_search_order [] =
    err
      (failure "invalid value in section [Metadata] with key `search-order`. Value cannot be empty")
check_config_search_order (c ∷ order) =
    let elements = split b',' (c ∷ order) in
    if ltb 2 (length elements)
    then err (
        failure
          "invalid value in section [Metadata] with key `search-order`. Value cannot contain more than 2 elements")
    else check_order_elements elements

-- The first monitor setting that is missing.
unfoldable pub check_monitor : LoadBalancerOpts → Outcome (Unit {0}) → Outcome (Unit {0})
check_monitor opts next =
    if opts.monitor_delay == pos 0
    then err (failure "monitor-delay not set in cloud provider config")
    else if opts.monitor_timeout == pos 0
    then err (failure "monitor-timeout not set in cloud provider config")
    else if opts.monitor_max_retries == 0
    then err (failure "monitor-max-retries not set in cloud provider config")
    else next

-- LoadBalancerOpts of the object LoadBalancer, with the options of the section for Edgecenter
pub record LoadBalancer (Client : Type 0) : Type 0 where
  pub client : Client
  pub opts : LoadBalancerOpts
  pub edgecenter : EdgecenterOpts

-- reflect.DeepEqual with LoadBalancerOpts{}: a map or a slice that is there is not nil.
abbrev is_nil : {A : Type 0} → Option A → Bool
is_nil none = true
is_nil (some a) = false

unfoldable pub is_empty_section : LoadBalancerOpts → Bool
is_empty_section o =
    o.lb_version == []
    && not o.use_octavia
    && o.subnet_id == []
    && o.network_id == []
    && o.floating_network_id == []
    && o.floating_subnet_id == []
    && is_nil o.lb_classes
    && o.lb_method == []
    && o.lb_provider == []
    && not o.create_monitor
    && o.monitor_delay == pos 0
    && o.monitor_timeout == pos 0
    && o.monitor_max_retries == 0
    && not o.manage_security_groups
    && is_nil o.node_security_group_ids
    && not o.internal_lb

unfoldable pub new_routes : RouterOpts → Outcome RouterOpts
new_routes opts = if opts.router_id == [] then err (sentinel no_router_id) else ok opts

abbrev supported_routes : Outcome RouterOpts → Option RouterOpts
supported_routes (ok r) = some r
supported_routes (err e) = none
supported_routes panic = none

module _ {Client : Type 0} (ec : Edgecenter Client) where
  unfoldable pub check_edgecenter_opts : Outcome (Unit {0})
  unfolding check_monitor check_config_search_order
  check_edgecenter_opts =
      let order = check_config_search_order ec.metadata_opts.search_order in
      if ec.lb_opts.create_monitor then check_monitor ec.lb_opts order else order

  claimed : LoadBalancer Client
  claimed = record { client = ec.client; opts = ec.lb_opts; edgecenter = ec.cfg.edgecenter }

  -- LoadBalancer
  unfoldable pub load_balancer : Option (LoadBalancer Client)
  unfolding claimed is_empty_section
  load_balancer =
      if is_empty_section ec.lb_opts
      then none
      else if not (ec.lb_opts.lb_version == []) && not (ec.lb_opts.lb_version == codes "v2")
      then none
      else some claimed

  -- Routes
  unfoldable pub routes : Option RouterOpts
  routes = supported_routes (new_routes ec.route_opts)
