-- ===== src/Instances/Lookup.antt =====
-- The instance behind a node: getInstanceByName of edgecenter.go; instanceByNode, getNodeInstanceID,
-- InstanceExists, InstanceShutdown and their kin of instances.go; getInstanceByNode of
-- loadbalancer_securitygroups.go.
use edgecenter_ccm.Prelude.{
  Str, Option, none, some, Bool, true, false, not, ◌||◌, List, [], ◌∷◌, ◌⊎◌, inl, inr, codes, ◌==◌,
  str_eq, if◌then◌else◌, Err, failure, sentinel, not_found, instance_not_found, error_is, Outcome,
  ok, err, Exec, pure, lift, fail, attempt, wrapping, ◌>>=◌,
}
use edgecenter_ccm.Cloud.Types.{Node, Instance}
use edgecenter_ccm.Cloud.Client.{Client}
use edgecenter_ccm.Instances.ProviderId.{instance_id_from_provider_id, build_provider_id}
use edgecenter_ccm.Loadbalancer.Options.Networks.{after_last_slash}

-- `if errors.Is(err, ErrNotFound) { return cloudprovider.InstanceNotFound }`
abbrev pub to_instance_not_found : Err → Err
to_instance_not_found e = if error_is e not_found then sentinel instance_not_found else e

module _ (c : Client) where
  open c use {State, IP, instances}

  first_or_missing : {A : Type 0} → List A → Exec State A
  first_or_missing [] = fail (sentinel not_found)
  first_or_missing (x ∷ xs) = pure x

  unfoldable pub get_instance_by_name : Str → Exec State (Instance IP)
  unfolding first_or_missing
  get_instance_by_name name = do list ← instances.list name; first_or_missing list

  abbrev pub renamed : {A : Type 0} → Err ⊎ A → Exec State A
  renamed (inl e) = fail (to_instance_not_found e)
  renamed (inr a) = pure a

  unfoldable pub instance_id : Str → Exec State Str
  instance_id name = do
    got ← attempt (get_instance_by_name name)
    instance ← renamed got
    pure (build_provider_id instance.id)

  unfoldable pub instance_by_provider_id : Str → Exec State (Instance IP)
  instance_by_provider_id provider_id = do
    id ← lift (instance_id_from_provider_id provider_id)
    instances.get id

  by_name : Str → Exec State (Instance IP)
  by_name name = do got ← attempt (get_instance_by_name name); renamed got

  unfoldable pub instance_by_node : Option Node → Exec State (Instance IP)
  unfolding by_name instance_by_provider_id
  instance_by_node none = fail (failure "node is nil")
  instance_by_node (some node) =
      if node.provider_id == [] then by_name node.name else instance_by_provider_id node.provider_id

  gone_or_error : Err ⊎ Instance IP → Exec State Bool
  gone_or_error (inr i) = pure true
  gone_or_error (inl e) =
      if error_is e instance_not_found || error_is e not_found then pure false else fail e

  unfoldable pub instance_exists : Option Node → Exec State Bool
  unfolding gone_or_error
  instance_exists node = do got ← attempt (instance_by_node node); gone_or_error got

  unfoldable pub instance_shutdown : Option Node → Exec State Bool
  instance_shutdown node = do
    instance ← instance_by_node node
    pure (instance.status == codes "SHUTOFF")

  unfoldable pub instance_exists_by_provider_id : Str → Exec State Bool
  instance_exists_by_provider_id provider_id = do
    id ← lift (instance_id_from_provider_id provider_id)
    instances.is_exist id

  unfoldable pub instance_shutdown_by_provider_id : Str → Exec State Bool
  instance_shutdown_by_provider_id provider_id = do
    instance ← instance_by_provider_id provider_id
    pure (instance.status == codes "SHUTOFF")

  -- The ID in the node's provider ID is what follows the last slash.
  unfoldable pub get_node_instance_id : Node → Exec State Str
  get_node_instance_id node =
      let named : Exec State Str = (do
        instance ←
            wrapping "failed to resolve instanceID for node %s: providerID=%q, name lookup failed: "
              (get_instance_by_name node.name)
        pure instance.id) in
      if after_last_slash node.provider_id == []
      then named
      else pure (after_last_slash node.provider_id)

  unfoldable pub get_instance_by_node : Node → Exec State (Instance IP)
  unfolding get_node_instance_id
  get_instance_by_node node = do
    id ← get_node_instance_id node
    wrapping "failed to get instance %s for node %s: " (instances.get id)

module _ {IP : Type 0} where
  unfoldable pub srv_instance_type : Instance IP → Outcome Str
  srv_instance_type i =
      if not (i.flavor_id == [])
      then ok i.flavor_id
      else if not (i.flavor_name == [])
      then ok i.flavor_name
      else err (failure "flavor name/id not found")
