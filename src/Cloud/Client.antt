-- ===== src/Cloud/Client.antt =====
-- The API calls that the code makes, over an unknown state of the cloud. A call that starts a task
-- and waits for it (ExecuteAndExtractTaskResult, WaitForTaskComplete) is one call, which returns the
-- IDs of the finished task. Reading may change the state too, since time passes.
use edgecenter_ccm.Prelude.{ℕ, Str, Option, List, Bool, Exec, Sentinel}
use edgecenter_ccm.Cloud.Types.{
  Loadbalancer, LoadbalancerCreate, Listener, ListenerCreate, ListenerUpdate, Pool, PoolCreate,
  PoolUpdate, MemberCreate, FloatingIp, Network, CloudVolume, Instance, Interface, SecurityGroup,
  RuleCreate, Service,
}

-- client.Loadbalancers: load balancers, listeners, pools and members
pub record LoadbalancersService (State IP : Type 0) : Type 0 where
  pub list : Exec State (List (Loadbalancer IP))
  pub get : Str → Exec State (Loadbalancer IP)
  pub is_exist : Str → Exec State Bool
  pub create : LoadbalancerCreate → Exec State (List Str)
  pub delete : Str → Exec State (Unit {0})
  pub listener_list : Str → Exec State (List Listener)
  pub listener_get : Str → Exec State Listener
  pub listener_is_exist : Str → Exec State Bool
  pub listener_create : ListenerCreate → Exec State (List Str)
  pub listener_update : Str → ListenerUpdate → Exec State (Unit {0})
  pub listener_delete : Str → Exec State (List Str)
  -- the load balancer, and the listener where one is given
  pub pool_list : Str → Option Str → Exec State (List (Pool IP))
  -- the pool may be a nil pointer, for which the code tests
  pub pool_get : Str → Exec State (Option (Pool IP))
  pub pool_is_exist : Str → Exec State Bool
  pub pool_create : PoolCreate → Exec State (List Str)
  pub pool_update : Str → PoolUpdate IP → Exec State (Unit {0})
  pub pool_delete : Str → Exec State (Unit {0})
  pub member_create : Str → MemberCreate IP → Exec State (Unit {0})
  pub member_delete : Str → Str → Exec State (Unit {0})

pub record FloatingipsService (State : Type 0) : Type 0 where
  pub list : Exec State (List FloatingIp)
  pub list_by_port : Str → Exec State (List FloatingIp)
  pub get : Str → Exec State FloatingIp
  pub create : Str → Exec State (List Str)
  -- the floating IP, and the port that it is assigned to
  pub assign : Str → Str → Exec State FloatingIp
  pub delete : Str → Exec State (Unit {0})

pub record SecurityGroupsService (State : Type 0) : Type 0 where
  pub list : Exec State (List SecurityGroup)
  pub get : Str → Exec State SecurityGroup
  -- the name of the new group
  pub create : Str → Exec State SecurityGroup
  pub delete : Str → Exec State (Unit {0})
  pub rule_create : Str → RuleCreate → Exec State (Unit {0})

pub record InstancesService (State IP : Type 0) : Type 0 where
  -- the instances of a name
  pub list : Str → Exec State (List (Instance IP))
  pub get : Str → Exec State (Instance IP)
  pub is_exist : Str → Exec State Bool
  pub interface_list : Str → Exec State (List (Interface IP))
  pub security_group_list : Str → Exec State (List SecurityGroup)
  pub filter_by_security_group : Str → Exec State (List (Instance IP))
  -- the instance, the security group, and the ports that receive it
  pub security_group_assign : Str → Str → List Str → Exec State (Unit {0})
  pub security_group_unassign : Str → Str → Exec State (Unit {0})

pub record VolumesService (State : Type 0) : Type 0 where
  pub get : Str → Exec State CloudVolume
  -- the name, the size and the type
  pub create : Str → ℕ → Str → Exec State (List Str)
  pub delete : Str → Exec State (Unit {0})
  -- the IDs of the tasks that extend the volume, and the wait for one of them
  pub extend : Str → ℕ → Exec State (List Str)
  pub wait_for_task : Str → Exec State (Unit {0})
  pub attach : Str → Str → Exec State CloudVolume
  pub detach : Str → Str → Exec State (Unit {0})

-- net.ParseIP and net.IP.String
pub record IpText (IP : Type 0) : Type 0 where
  pub parse : Str → Option IP
  pub text : IP → Str
  pub is_ipv4 : IP → Bool
  -- net.ParseCIDR, and the text of the network that it returns
  pub parse_cidr : Str → Option Str

-- wait.ExponentialBackoff and wait.ExponentialBackoffWithContext, by the number of steps. `V` holds
-- the variables that the closure of the condition captures.
abbrev pub Backoff : Type 0 → Type 1
Backoff State = (V : Type 0) → ℕ → Exec (V × State) Bool → Exec (V × State) (Unit {0})

pub record Client : Type 1 where
  pub State : Type 0
  pub IP : Type 0
  pub ip : IpText IP
  pub loadbalancers : LoadbalancersService State IP
  pub floatingips : FloatingipsService State
  pub security_groups : SecurityGroupsService State
  pub instances : InstancesService State IP
  pub volumes : VolumesService State
  pub networks_list : Exec State (List Network)
  -- the CIDR of a subnet
  pub subnet_cidr : Str → Exec State Str
  -- edgecloud.MKaaSClustersBasePathV2
  pub clusters_base_path : Str
  -- client.NewRequest: the method, the path and the secret ID of the body; and client.Do, with the
  -- secret ID of the answer
  pub Request : Type 0
  pub new_request : Str → Str → Str → Exec State Request
  pub do_request : Request → Exec State Str
  pub backoff : Backoff State
  pub backoff_with_context : Backoff State
  -- cloudprovider.DefaultLoadBalancerName
  pub default_load_balancer_name : Service → Str
  -- SecurityGroupRuleProtocol.IsValid returns no error
  pub rule_protocol_is_valid : Str → Bool
  -- VolumeType.IsValid returns no error
  pub volume_type_is_valid : Str → Bool
  -- the texts of errors that are declared in other modules
  pub foreign_text : Sentinel → Str
