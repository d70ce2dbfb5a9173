-- ===== src/Instances/Addresses.antt =====
-- nodeAddresses of internal/edgecenter/edgecenter.go, AddToNodeAddresses of
-- internal/apis/core/v1/helper/helpers.go, and InstanceMetadata of instances.go.
pub mod Distinct
use edgecenter_ccm.Prelude.{
  Str, Option, none, some, Bool, true, false, not, ◌&&◌, ◌||◌, List, [], ◌∷◌, ◌++◌, map, codes, any,
  has_prefix, ◌==◌, nat_eq, str_eq, if◌then◌else◌, ltb, Dict, lookup, Exec, pure, lift, ◌>>=◌,
}
use edgecenter_ccm.Cloud.Types.{
  Node, NodeAddress, AddressType, hostname, internal_ip, external_ip, address_type_eq, AddressProps,
  Instance,
}
use edgecenter_ccm.Cloud.Client.{Client, IpText}
use edgecenter_ccm.Instances.Lookup.{instance_by_node, srv_instance_type}
use edgecenter_ccm.Instances.ProviderId.{build_provider_id}
use edgecenter_ccm.Loadbalancer.Members.{ip_string}

abbrev pub same_address : NodeAddress → NodeAddress → Bool
same_address a b = a.address == b.address && a.kind == b.kind

-- AddToNodeAddresses, for one address: it is appended unless it is there.
unfoldable pub add_to_node_addresses : NodeAddress → List NodeAddress → List NodeAddress
add_to_node_addresses add addresses =
    if any (λ existing. same_address existing add) addresses
    then addresses
    else addresses ++ (add ∷ [])

pub record NetworkingOpts : Type 0 where
  pub ipv6_support_disabled : Bool
  pub public_network_name : Str
  pub internal_network_name : Str

-- The order of sort.Strings on network names: insertion by bytes.
unfoldable pub text_lt : Str → Str → Bool
text_lt s [] = false
text_lt [] (d ∷ t) = true
text_lt (c ∷ s) (d ∷ t) = ltb c d || (c == d && text_lt s t)

insert_sorted : Str → List Str → List Str
insert_sorted k [] = k ∷ []
insert_sorted k (j ∷ ks) =
    let rest = insert_sorted k ks in if text_lt j k then j ∷ rest else k ∷ j ∷ ks

unfoldable pub sort_strings : List Str → List Str
unfolding insert_sorted text_lt
sort_strings [] = []
sort_strings (k ∷ ks) = insert_sorted k (sort_strings ks)

module _ {IP : Type 0} (ip : IpText IP) (opts : NetworkingOpts) where
  -- `props.Address != nil && strings.HasPrefix(props.Address.String(), "100.")`
  abbrev pub is_service_address : Option IP → Bool
  is_service_address none = false
  is_service_address (some a) = has_prefix (ip.text a) (codes "100.")

  -- `props.Address.To4() == nil`, which holds of a nil address
  abbrev pub is_ipv6 : Option IP → Bool
  is_ipv6 none = true
  is_ipv6 (some a) = not (ip.is_ipv4 a)

  abbrev pub address_kind : Str → AddressProps IP → Option AddressType
  address_kind network props =
      if props.is_floating || network == opts.public_network_name
      then some external_ip
      else if opts.internal_network_name == [] || network == opts.internal_network_name
      then some internal_ip
      else none

  abbrev pub add_kind : Option AddressType → AddressProps IP → List NodeAddress → List NodeAddress
  add_kind none props addrs = addrs
  add_kind (some kind) props addrs =
      if is_ipv6 props.address && opts.ipv6_support_disabled
      then addrs
      else add_to_node_addresses (record { kind = kind; address = ip_string ip props.address })
          addrs

  -- One round of the inner loop.
  unfoldable pub add_props : Str → AddressProps IP → List NodeAddress → List NodeAddress
  unfolding has_prefix
  add_props network props addrs =
      if is_service_address props.address
      then addrs
      else add_kind (address_kind network props) props addrs

  unfoldable pub add_network : Str → List (AddressProps IP) → List NodeAddress → List NodeAddress
  add_network network [] addrs = addrs
  add_network network (p ∷ props) addrs = add_network network props (add_props network p addrs)

  abbrev pub or_no_props : Option (List (AddressProps IP)) → List (AddressProps IP)
  or_no_props none = []
  or_no_props (some props) = props

  unfoldable pub add_networks :
      List Str → Dict (List (AddressProps IP)) → List NodeAddress → List NodeAddress
  unfolding add_network
  add_networks [] addresses addrs = addrs
  add_networks (network ∷ networks) addresses addrs =
      add_networks networks addresses
        (add_network network (or_no_props (lookup network addresses)) addrs)

  -- The host name of the metadata goes last, if it is there and not empty.
  abbrev pub add_hostname : Option Str → List NodeAddress → List NodeAddress
  add_hostname none addrs = addrs
  add_hostname (some []) addrs = addrs
  add_hostname (some (h ∷ name)) addrs =
      add_to_node_addresses (record { kind = hostname; address = h ∷ name }) addrs

  unfoldable pub node_addresses : Instance IP → List NodeAddress
  unfolding sort_strings add_networks
  node_addresses i =
      add_hostname (lookup (codes "hostname") i.metadata)
        (add_networks (sort_strings (map (λ (network, _). network) i.addresses)) i.addresses [])

pub record InstanceMetadata : Type 0 where
  pub provider_id : Str
  pub instance_type : Str
  pub node_addresses : List NodeAddress

module _ (c : Client) where
  open c use {State, ip}

  unfoldable pub instance_metadata : NetworkingOpts → Option Node → Exec State InstanceMetadata
  instance_metadata opts node = do
    instance ← instance_by_node c node
    instance_type ← lift (srv_instance_type instance)
    pure (record {
      provider_id = build_provider_id instance.id;
      instance_type = instance_type;
      node_addresses = node_addresses ip opts instance;
    })
