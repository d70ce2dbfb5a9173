-- ===== src/Loadbalancer/Options/Networks.antt =====
-- getSubnetIDForLB of internal/edgecenter/loadbalancer.go and getFloatingNetworkIDForLB of
-- loadbalancer_floatingip.go: the networks that are detected where no option names them.
use edgecenter_ccm.Prelude.{
  Str, Option, none, some, Bool, List, [], ◌∷◌, find, ◌==◌, str_eq, cut_at, reverse_text, sentinel,
  not_found, Exec, pure, fail, lift, ◌>>=◌,
}
use edgecenter_ccm.Cloud.Types.{Node, Interface, IpAssignment}
use edgecenter_ccm.Cloud.Client.{Client}
use edgecenter_ccm.Loadbalancer.Members.{node_address_for_lb, ip_string}

-- instanceID[strings.LastIndex(instanceID, "/")+1:]
unfoldable pub after_last_slash : Str → Str
unfolding cut_at
after_last_slash s = reverse_text (cut_at b'/' (reverse_text s)).0

module _ (c : Client) where
  open c use {State, IP, ip, instances, networks_list}

  abbrev on_address : Str → IpAssignment IP → Bool
  on_address address a = ip_string ip a.ip_address == address

  subnet_of : Str → List (Interface IP) → Option Str
  subnet_of address [] = none
  subnet_of address (i ∷ rest) = elim (find (on_address address) i.ip_assignments) [
    | none ↦ subnet_of address rest
    | some a ↦ some a.subnet_id
  ]

  found_or_missing : {A : Type 0} → Option A → Exec State A
  found_or_missing none = fail (sentinel not_found)
  found_or_missing (some a) = pure a

  unfoldable pub get_subnet_id_for_lb : Node → Exec State Str
  unfolding subnet_of found_or_missing
  get_subnet_id_for_lb node = do
    address ← lift (node_address_for_lb node)
    interfaces ← instances.interface_list (after_last_slash node.provider_id)
    found_or_missing (subnet_of address interfaces)

  unfoldable pub get_floating_network_id_for_lb : Exec State Str
  unfolding found_or_missing
  get_floating_network_id_for_lb = do
    networks ← networks_list
    network ← found_or_missing (find (λ n. n.is_external) networks)
    pure network.id
