-- ===== src/Cloud/Types.antt =====
-- The fields that the code reads or writes of the types of edgecentercloud-go and of the
-- Kubernetes API. Enumerated text is data, with a constructor for what the code never names.
use edgecenter_ccm.Prelude.{ℕ, Str, Option, List, Bool, Dict, Eq, ℕ_discrete, ℤ}

-- edgecloud.ProvisioningStatus
pub data ProvisioningStatus : Type 0 where
  active error deleted pending_delete : ProvisioningStatus
  other_status : Str → ProvisioningStatus

-- LoadbalancerListenerProtocol and LoadbalancerPoolProtocol, which the code casts into each other
pub data Protocol : Type 0 where
  tcp udp http terminated_https : Protocol
  other_protocol : Str → Protocol

pub data Algorithm : Type 0 where
  round_robin source_ip least_connections : Algorithm
  other_algorithm : Str → Algorithm

pub data MonitorType : Type 0 where
  monitor_tcp monitor_udp_connect : MonitorType

-- The session persistence that the code sets is `Type: SessionPersistenceSourceIP`.
pub data Persistence : Type 0 where
  persist_source_ip : Persistence
  other_persistence : Str → Persistence

pub Protocol-discrete : Discrete Protocol
Protocol-discrete = hlevel ℕ_discrete

pub ProvisioningStatus-discrete : Discrete ProvisioningStatus
ProvisioningStatus-discrete = hlevel ℕ_discrete

instance unfoldable pub protocol_eq : Eq Protocol
unfolding Protocol-discrete
protocol_eq = record { dec = Protocol-discrete }

instance unfoldable pub status_eq : Eq ProvisioningStatus
unfolding ProvisioningStatus-discrete
status_eq = record { dec = ProvisioningStatus-discrete }

-- Kubernetes

-- corev1.ServicePort; port numbers are not negative
pub record ServicePort : Type 0 where
  pub name : Str
  pub protocol : Str
  pub port : ℕ
  pub node_port : ℕ

pub record Service : Type 0 where
  pub namespace : Str
  pub name : Str
  pub uid : Str
  pub annotations : Dict Str
  pub ports : List ServicePort
  pub session_affinity : Str
  pub source_ranges : List Str
  pub health_check_node_port : ℕ
  pub traffic_policy_local : Bool
  -- the IPs of status.loadBalancer.ingress
  pub ingress : List Str

pub data AddressType : Type 0 where
  hostname internal_ip external_ip : AddressType
  other_address : Str → AddressType

pub AddressType-discrete : Discrete AddressType
AddressType-discrete = hlevel ℕ_discrete

instance unfoldable pub address_type_eq : Eq AddressType
unfolding AddressType-discrete
address_type_eq = record { dec = AddressType-discrete }

pub record NodeAddress : Type 0 where
  pub kind : AddressType
  pub address : Str

pub record Node : Type 0 where
  pub name : Str
  pub provider_id : Str
  pub addresses : List NodeAddress

-- Load balancers. `IP` is net.IP: a nil address is `none`.
module _ (IP : Type 0) where
  pub record Loadbalancer : Type 0 where
    pub id : Str
    pub name : Str
    pub provisioning_status : ProvisioningStatus
    pub vip_address : Option IP
    pub vip_port_id : Str

  pub record PoolMember : Type 0 where
    pub id : Str
    pub address : Option IP
    pub protocol_port : ℕ
    pub subnet_id : Str

  pub record MemberCreate : Type 0 where
    pub address : Option IP
    pub protocol_port : ℕ
    pub subnet_id : Str

  pub record Pool : Type 0 where
    pub id : Str
    pub name : Str
    pub protocol : Protocol
    pub algorithm : Algorithm
    pub persistence : Option Persistence
    -- the IDs of the listeners that the pool names
    pub listeners : List Str
    pub members : List PoolMember

  pub record PoolUpdate : Type 0 where
    pub id : Str
    pub name : Str
    pub members : List MemberCreate
    pub persistence : Option Persistence
    pub algorithm : Algorithm

  -- One entry of instance.Addresses[network]
  pub record AddressProps : Type 0 where
    pub address : Option IP
    pub is_floating : Bool

  pub record Instance : Type 0 where
    pub id : Str
    pub name : Str
    pub status : Str
    pub flavor_id : Str
    pub flavor_name : Str
    pub addresses : Dict (List AddressProps)
    pub metadata : Dict Str
    -- the names of the security groups
    pub security_groups : List Str

  -- One assignment of instance interface: its address and its subnet
  pub record IpAssignment : Type 0 where
    pub ip_address : Option IP
    pub subnet_id : Str

  pub record Interface : Type 0 where
    pub port_id : Str
    pub subnet_cidrs : List Str
    pub ip_assignments : List IpAssignment

pub record Listener : Type 0 where
  pub id : Str
  pub name : Str
  pub protocol : Protocol
  pub protocol_port : ℕ
  pub secret_id : Str
  pub timeout_client_data : Option ℤ
  pub timeout_member_data : Option ℤ
  pub timeout_member_connect : Option ℤ

pub record LoadbalancerCreate : Type 0 where
  pub name : Str
  pub flavor : Str
  -- an empty ID is a field that is not set
  pub vip_network_id : Str
  pub vip_subnet_id : Str

pub record ListenerCreate : Type 0 where
  pub name : Str
  pub protocol : Protocol
  pub protocol_port : ℕ
  pub loadbalancer_id : Str
  pub insert_x_forwarded : Bool
  pub secret_id : Str
  pub timeout_client_data : Option ℤ
  pub timeout_member_data : Option ℤ
  pub timeout_member_connect : Option ℤ

pub record ListenerUpdate : Type 0 where
  pub name : Str
  pub secret_id : Str
  pub timeout_client_data : Option ℤ
  pub timeout_member_data : Option ℤ
  pub timeout_member_connect : Option ℤ

pub record HealthMonitorCreate : Type 0 where
  pub kind : MonitorType
  pub delay : ℕ
  pub timeout : ℕ
  pub max_retries : ℕ

pub record PoolCreate : Type 0 where
  pub name : Str
  pub protocol : Protocol
  pub algorithm : Algorithm
  pub listener_id : Str
  pub health_monitor : Option HealthMonitorCreate
  pub persistence : Option Persistence

pub record FloatingIp : Type 0 where
  pub id : Str
  pub address : Str

pub record Network : Type 0 where
  pub id : Str
  pub is_external : Bool

pub record CloudVolume : Type 0 where
  pub id : Str
  pub name : Str
  pub status : Str
  pub size : ℕ
  pub availability_zone : Str
  -- the server and the device of each attachment
  pub attachments : List (Str × Str)

-- A rule of a security group; an absent field is a nil pointer.
pub record SecurityGroupRule : Type 0 where
  pub id : Str
  pub security_group_id : Str
  pub remote_group_id : Str
  pub direction : Str
  pub ether_type : Option Str
  pub protocol : Option Str
  pub port_range_max : Option ℕ
  pub port_range_min : Option ℕ
  pub remote_ip_prefix : Option Str

pub record SecurityGroup : Type 0 where
  pub id : Str
  pub name : Str
  pub rules : List SecurityGroupRule

pub record RuleCreate : Type 0 where
  pub direction : Str
  pub ether_type : Str
  pub protocol : Str
  pub security_group_id : Str
  pub remote_group_id : Option Str
  pub port_range_max : ℕ
  pub port_range_min : ℕ
  pub remote_ip_prefix : Option Str
