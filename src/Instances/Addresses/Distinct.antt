-- ===== src/Instances/Addresses/Distinct.antt =====
-- AddToNodeAddresses of internal/apis/core/v1/helper/helpers.go keeps the addresses apart, so that
-- nodeAddresses of internal/edgecenter/edgecenter.go lists no address twice.
use edgecenter_ccm.Prelude.{
  Str, Option, none, some, Bool, true, false, ◌&&◌, List, [], ◌∷◌, ◌++◌, any, str_eq, if◌then◌else◌,
  All, Dict, Distinct, All-append, ◌≡◌, refl, arith, lookup, map, codes,
}
use edgecenter_ccm.Cloud.Types.{NodeAddress, AddressProps, Instance, address_type_eq, AddressType}
use edgecenter_ccm.Cloud.Client.{IpText}
use edgecenter_ccm.Loadbalancer.Members.{ip_string}
use edgecenter_ccm.Instances.Addresses.{
  is_ipv6, same_address, add_to_node_addresses, NetworkingOpts, add_props, add_network,
  add_networks, add_kind, add_hostname, node_addresses, sort_strings, is_service_address,
  address_kind, or_no_props,
}

-- No two places hold the same kind and text.
abbrev pub AllApart : List NodeAddress → Type 0
AllApart addresses =
    Distinct {B = AddressType × Str} (λ (a : NodeAddress). (a.kind, a.address)) addresses

Apart : NodeAddress → NodeAddress → Type 0
Apart a b = ¬ (◌≡◌ {A = AddressType × Str} (a.kind, a.address) (b.kind, b.address))

All-Apart_of_any :
    (add : NodeAddress) (addresses : List NodeAddress)
    → any (λ existing. same_address existing add) addresses ≡ false
    → All (λ existing. Apart existing add) addresses
unfolding Apart
All-Apart_of_any add [] h = tt
All-Apart_of_any add (a ∷ addresses) h =
    (λ same. ground arith, All-Apart_of_any add addresses (ground arith))

append-AllApart :
    (add : NodeAddress) (addresses : List NodeAddress)
    → AllApart addresses
    → All (λ existing. Apart existing add) addresses
    → AllApart (addresses ++ (add ∷ []))
unfolding Apart
append-AllApart add [] h k = (tt, tt)
append-AllApart add (a ∷ addresses) (fresh, h) (apart, k) =
    (All-append _ addresses (add ∷ []) fresh (apart, tt), append-AllApart add addresses h k)

pub add_to_node_addresses-AllApart :
    (add : NodeAddress) (addresses : List NodeAddress)
    → AllApart addresses
    → AllApart (add_to_node_addresses add addresses)
unfolding add_to_node_addresses
add_to_node_addresses-AllApart add addresses h =
    by_test (any (λ existing. same_address existing add) addresses) refl
  where
    by_test :
        (b : Bool)
        → any (λ existing. same_address existing add) addresses ≡ b
        → AllApart (if b then addresses else addresses ++ (add ∷ []))
    by_test true e = h
    by_test false e = append-AllApart add addresses h (All-Apart_of_any add addresses e)

module _ {IP : Type 0} (ip : IpText IP) (opts : NetworkingOpts) where
  add_kind-AllApart :
      (kind : Option AddressType) (props : AddressProps IP) (addresses : List NodeAddress)
      → AllApart addresses
      → AllApart (add_kind ip opts kind props addresses)
  add_kind-AllApart none props addresses h = h
  add_kind-AllApart (some kind) props addresses h =
      by_test (is_ipv6 ip opts props.address && opts.ipv6_support_disabled)
    where
      address : NodeAddress
      address = record { kind = kind; address = ip_string ip props.address }

      by_test :
          (b : Bool) → AllApart (if b then addresses else add_to_node_addresses address addresses)
      by_test true = h
      by_test false = add_to_node_addresses-AllApart address addresses h

  add_props-AllApart :
      (network : Str) (props : AddressProps IP) (addresses : List NodeAddress)
      → AllApart addresses
      → AllApart (add_props ip opts network props addresses)
  unfolding add_props
  add_props-AllApart network props addresses h = by_test (is_service_address ip opts props.address)
    where
      by_test :
          (b : Bool)
          → AllApart (
              if b
              then addresses
              else add_kind ip opts (address_kind ip opts network props) props addresses)
      by_test true = h
      by_test false = add_kind-AllApart (address_kind ip opts network props) props addresses h

  add_network-AllApart :
      (network : Str) (props : List (AddressProps IP)) (addresses : List NodeAddress)
      → AllApart addresses
      → AllApart (add_network ip opts network props addresses)
  unfolding add_network
  add_network-AllApart network [] addresses h = h
  add_network-AllApart network (p ∷ props) addresses h =
      add_network-AllApart network props (add_props ip opts network p addresses)
        (add_props-AllApart network p addresses h)

  add_networks-AllApart :
      (networks : List Str) (all : Dict (List (AddressProps IP))) (addresses : List NodeAddress)
      → AllApart addresses
      → AllApart (add_networks ip opts networks all addresses)
  unfolding add_networks
  add_networks-AllApart [] all addresses h = h
  add_networks-AllApart (network ∷ networks) all addresses h =
      let props = or_no_props ip opts (lookup network all) in
      add_networks-AllApart networks all (add_network ip opts network props addresses)
        (add_network-AllApart network props addresses h)

  add_hostname-AllApart :
      (name : Option Str) (addresses : List NodeAddress)
      → AllApart addresses
      → AllApart (add_hostname ip opts name addresses)
  add_hostname-AllApart none addresses h = h
  add_hostname-AllApart (some []) addresses h = h
  add_hostname-AllApart (some (x ∷ name)) addresses h = add_to_node_addresses-AllApart _ addresses h

  -- The addresses that are listed for an instance differ from one another in their kinds or texts.
  pub node_addresses-AllApart : (i : Instance IP) → AllApart (node_addresses ip opts i)
  unfolding node_addresses
  node_addresses-AllApart i = add_hostname-AllApart (lookup (codes "hostname") i.metadata) _ (
      add_networks-AllApart (sort_strings (map (λ (network, _). network) i.addresses)) i.addresses
        [] tt)
