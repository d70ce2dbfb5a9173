-- ===== src/Instances/Methods.antt =====
-- internal/edgecenter/instances.go and edgecenter.go: the addresses and the type of an instance, by
-- its name and by its provider ID.
use edgecenter_ccm.Prelude.{Str, List, Exec, pure, fail, lift, sentinel, not_implemented, ◌>>=◌}
use edgecenter_ccm.Cloud.Types.{NodeAddress}
use edgecenter_ccm.Cloud.Client.{Client}
use edgecenter_ccm.Instances.Lookup.{
  get_instance_by_name, instance_by_provider_id, srv_instance_type,
}
use edgecenter_ccm.Instances.Addresses.{NetworkingOpts, node_addresses}

module _ (c : Client) where
  open c use {State, ip}

  unfoldable pub get_addresses_by_name : NetworkingOpts → Str → Exec State (List NodeAddress)
  get_addresses_by_name opts name = do
    instance ← get_instance_by_name c name
    pure (node_addresses ip opts instance)

  -- NodeAddresses, the method, whose name nodeAddresses of edgecenter.go has too
  unfoldable pub instance_addresses : NetworkingOpts → Str → Exec State (List NodeAddress)
  unfolding get_addresses_by_name
  instance_addresses opts name = do addresses ← get_addresses_by_name opts name; pure addresses

  unfoldable pub node_addresses_by_provider_id :
      NetworkingOpts → Str → Exec State (List NodeAddress)
  node_addresses_by_provider_id opts provider_id = do
    instance ← instance_by_provider_id c provider_id
    pure (node_addresses ip opts instance)

  unfoldable pub instance_type_by_provider_id : Str → Exec State Str
  instance_type_by_provider_id provider_id = do
    instance ← instance_by_provider_id c provider_id
    lift (srv_instance_type instance)

  unfoldable pub instance_type : Str → Exec State Str
  instance_type name = do instance ← get_instance_by_name c name; lift (srv_instance_type instance)

  -- AddSSHKeyToAllInstances, for a user and a key
  unfoldable pub add_ssh_key_to_all_instances : Str → Str → Exec State (Unit {0})
  add_ssh_key_to_all_instances user key = fail (sentinel not_implemented)
