-- ===== src/SecurityGroups/Nodes.antt =====
-- Security groups of nodes: applyNodeSecurityGroupIDForLB and disassociateSecurityGroupForLB.
use edgecenter_ccm.Prelude.{
  Str, Bool, not, List, [], ◌∷◌, any, codes, has_prefix, ◌==◌, nat_eq, str_eq, if◌then◌else◌, Exec,
  pure, wrapping, ◌>>=◌, ◌>>◌,
}
use edgecenter_ccm.Cloud.Types.{Node, Instance, Interface}
use edgecenter_ccm.Cloud.Client.{Client}
use edgecenter_ccm.Instances.Lookup.{get_instance_by_node}

module _ {IP : Type 0} where
  abbrev pub has_group : Str → Instance IP → Bool
  has_group group i = any (λ g. g == group) i.security_groups

  -- An interface with a subnet outside 100.0.0.0/8, by the text of its CIDR.
  abbrev pub is_eligible : Interface IP → Bool
  is_eligible i = any (λ cidr. not (has_prefix cidr (codes "100."))) i.subnet_cidrs

  unfoldable pub eligible_ports : List (Interface IP) → List Str
  unfolding has_prefix
  eligible_ports [] = []
  eligible_ports (i ∷ rest) =
      let ports = eligible_ports rest in if is_eligible i then i.port_id ∷ ports else ports

module _ (c : Client) where
  open c use {State, IP, instances}

  assign_ports : Str → Str → List Str → Exec State (Unit {0})
  assign_ports group id [] = pure tt
  assign_ports group id (p ∷ ports) =
      wrapping "failed to assign security group %s to instance %s: "
        (instances.security_group_assign id group (p ∷ ports))

  assign_interfaces : Str → Str → Exec State (Unit {0})
  unfolding assign_ports
  assign_interfaces group id = do
    interfaces ←
        wrapping "failed to list interfaces for instance %s: " (instances.interface_list id)
    assign_ports group id (eligible_ports interfaces)

  -- The body of the loop over the nodes.
  unfoldable pub apply_to_node : Str → Node → Exec State (Unit {0})
  unfolding assign_interfaces
  apply_to_node group node = do
    instance ← get_instance_by_node c node
    if has_group group instance then pure tt else assign_interfaces group instance.id

  unfoldable pub apply_node_security_group_id_for_lb : List Node → Str → Exec State (Unit {0})
  apply_node_security_group_id_for_lb [] group = pure tt
  apply_node_security_group_id_for_lb (node ∷ nodes) group = do
    apply_to_node group node
    apply_node_security_group_id_for_lb nodes group

  unassign_all : Str → List (Instance IP) → Exec State (Unit {0})
  unassign_all group [] = pure tt
  unassign_all group (i ∷ rest) = do
    (if has_group group i
        then wrapping "failed to unassign security group %s from instance %s: "
            (instances.security_group_unassign i.id group)
        else pure tt)
    unassign_all group rest

  unfoldable pub disassociate_security_group_for_lb : Str → Str → Exec State (Unit {0})
  unfolding unassign_all
  disassociate_security_group_for_lb group_id group = do
    found ←
        wrapping "cannot get instances for security group %s: "
          (instances.filter_by_security_group group_id)
    unassign_all group found
