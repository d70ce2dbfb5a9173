-- ===== src/SecurityGroups/Update/Covered.antt =====
-- updateSecurityGroup of internal/edgecenter/loadbalancer_securitygroups.go covers the groups of the
-- nodes.
use edgecenter_ccm.Prelude.{
  neq_of_==, String, Str, List, [], ◌∷◌, All, ◌⊎◌, inl, inr, ok, wrapping, >>=-eq-ok,
  wrapping-eq-ok, ◌≡◌, ◌≢◌, refl, guard-passed, ◌==◌, str_eq,
}
use edgecenter_ccm.Cloud.Types.{ServicePort, Service, Node, SecurityGroup, SecurityGroupRule}
use edgecenter_ccm.Cloud.Client.{Client}
use edgecenter_ccm.Loadbalancer.Names.{get_security_group_name}
use edgecenter_ccm.SecurityGroups.Rules.{get_security_group_rules, create_node_security_group_rules}
use edgecenter_ccm.SecurityGroups.Rules.Matching.{Matches}
use edgecenter_ccm.SecurityGroups.Ensure.{group_id, has_ports}
use edgecenter_ccm.SecurityGroups.Ensure.Admitted.{get_security_group_rules-Matches}
use edgecenter_ccm.SecurityGroups.Update.{
  StringSets, node_filter, remove_stale, create_missing, create_current, update_ports, found_group,
  get_node_security_group_id, update_security_group,
}

module _ (c : Client) (sets : StringSets) (svc : Service) where
  open c use {State, security_groups, rule_protocol_is_valid}

  -- A rule of the node's group that satisfies the filter was listed, or the API accepted the rules that
  -- admit the load balancer's group on the port.
  abbrev pub Covers : Str → ServicePort → Str → Type 0
  Covers remote port group =
      (s t u : State) × (rules : List SecurityGroupRule) × (get_security_group_rules c
          (node_filter c sets group remote port) s
        ≡ (ok rules, t))
      × (((rule : SecurityGroupRule) × (rest : List SecurityGroupRule) × (rules ≡ rule ∷ rest)
            × Matches rule (node_filter c sets group remote port))
          ⊎ (create_node_security_group_rules c rule_protocol_is_valid group port.node_port
                port.protocol remote svc t
              ≡ (ok tt, u)))

  create_current-Covers :
      (remote : Str) (port : ServicePort) (groups : List Str) (s t : State)
      → create_current c sets svc remote port groups s ≡ (ok tt, t)
      → All (Covers remote port) groups
  unfolding create_current create_missing
  create_current-Covers remote port [] s t h = tt
  create_current-Covers remote port (group ∷ groups) s t h =
      let find_text : String =
        "error finding rules for remote group id %s in security group id %s: " in
      let lookup = get_security_group_rules c (node_filter c sets group remote port) in
      let (rules, u, e, h1) = >>=-eq-ok (wrapping find_text lookup) _ s h in
      let (_, v, e2, h2) = >>=-eq-ok (create_missing c sets svc remote port group rules) _ u h1 in
      let read = wrapping-eq-ok find_text lookup s e in
      let matching =
        get_security_group_rules-Matches c (node_filter c sets group remote port) rules s u read in
      (by_rules rules s u v read matching e2, create_current-Covers remote port groups v t h2)
    where
      by_rules :
          (rules : List SecurityGroupRule) (s u v : State)
          → get_security_group_rules c (node_filter c sets group remote port) s ≡ (ok rules, u)
          → All (λ rule. Matches rule (node_filter c sets group remote port)) rules
          → create_missing c sets svc remote port group rules u ≡ (ok tt, v)
          → Covers remote port group
      by_rules (rule ∷ rest) s u v read (first, _) h =
          (s, u, v, rule ∷ rest, read, inl (rule, rest, refl, first))
      by_rules [] s u v read matching h =
          let text : String =
            "error occurred creating security group for loadbalancer service %s/%s: " in
          (
            s,
            u,
            v,
            [],
            read,
            inr (
                wrapping-eq-ok text
                  (create_node_security_group_rules c rule_protocol_is_valid group port.node_port
                    port.protocol remote svc)
                  u h),
          )

  update_ports-Covers :
      (remote : Str) (removals current : List Str) (ports : List ServicePort) (s t : State)
      → update_ports c sets svc remote removals current ports s ≡ (ok tt, t)
      → All (λ port. All (Covers remote port) current) ports
  unfolding update_ports
  update_ports-Covers remote removals current [] s t h = tt
  update_ports-Covers remote removals current (port ∷ ports) s t h =
      let (_, u, _, h1) = >>=-eq-ok (remove_stale c sets remote port removals) _ s h in
      let (_, v, e, h2) = >>=-eq-ok (create_current c sets svc remote port current) _ u h1 in
      (
        create_current-Covers remote port current u v e,
        update_ports-Covers remote removals current ports v t h2,
      )

  -- When updateSecurityGroup returns no error, the load balancer's group was among the listed
  -- ones, and for each port and each group of the nodes a rule that satisfies the filter was
  -- listed, or the API accepted new ones.
  pub update_security_group-Covers :
      (nodes : List Node) (original : List Str) (s t : State)
      → update_security_group c sets svc nodes original s ≡ (ok tt, t)
      → (groups : List SecurityGroup) × (current : List Str) × (u v w : State)
        × (get_node_security_group_id c sets nodes u ≡ (ok current, v))
        × (security_groups.list v ≡ (ok groups, w))
        × (group_id (get_security_group_name svc) groups ≢ [])
        × All
            (λ port. All (Covers (group_id (get_security_group_name svc) groups) port) current)
            svc.ports
  unfolding update_security_group
  update_security_group-Covers nodes original s t h =
      let ids_text : String =
        "failed to find node-security-group for loadbalancer service %s/%s: " in
      let (current, u, e, h1) =
        >>=-eq-ok (wrapping ids_text (get_node_security_group_id c sets nodes)) _ s h in
      let (groups, v, e2, h2) = >>=-eq-ok security_groups.list _ u h1 in
      let remote = group_id (get_security_group_name svc) groups in
      let (_, w, e3, h3) = >>=-eq-ok (found_group c sets remote) _ v h2 in
      let (_, x, _, h4) = >>=-eq-ok (has_ports c svc.ports) _ w h3 in
      let (_, y, e5, _) =
        >>=-eq-ok
          (update_ports c sets svc remote (sets.difference original current) current svc.ports) _ x
          h4 in
      let (named, _) = guard-passed (remote == []) _ _ v e3 in
      (
        groups,
        current,
        s,
        u,
        v,
        wrapping-eq-ok ids_text (get_node_security_group_id c sets nodes) s e,
        e2,
        neq_of_== named,
        update_ports-Covers remote (sets.difference original current) current svc.ports x y e5,
      )
