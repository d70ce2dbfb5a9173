-- ===== src/SecurityGroups/Ensure/Settled.antt =====
-- The rules that ensureSecurityGroup of internal/edgecenter/loadbalancer_securitygroups.go created are
-- found again in the next synchronisation.
use edgecenter_ccm.Prelude.{
  inl, inr, if◌then◌else◌, Str, Option, none, some, Bool, true, false, List, [], ◌∷◌, ◌++◌, filter,
  str_eq, nat_eq, ==_of_neq, ok, ◌≡◌, ◌≢◌, refl, arith, All,
}
use edgecenter_ccm.Cloud.Types.{
  ServicePort, Service, Node, Instance, SecurityGroup, SecurityGroupRule, RuleCreate,
}
use edgecenter_ccm.Cloud.Client.{Client}
use edgecenter_ccm.SecurityGroups.Rules.{compare_security_group, get_security_group_rules, rules_of}
use edgecenter_ccm.SecurityGroups.Rules.Matching.{compare_security_group-Matches}
use edgecenter_ccm.SecurityGroups.Ensure.{
  port_filter, port_rule, create_port_rule, ensure_port_rules, group_id, has_ports,
  existing_or_created, ensure_security_group,
}
use edgecenter_ccm.Loadbalancer.Names.{get_security_group_name}
use edgecenter_ccm.Instances.Lookup.{get_instance_by_node}
use edgecenter_ccm.SecurityGroups.Nodes.{
  has_group, apply_to_node, apply_node_security_group_id_for_lb,
}

abbrev group_or_empty : Option Str → Str
group_or_empty none = []
group_or_empty (some id) = id

-- The rule that the API shows where it made it as it was asked to.
abbrev pub as_asked : Str → RuleCreate → SecurityGroupRule
as_asked id req = record {
  id = id;
  security_group_id = req.security_group_id;
  remote_group_id = group_or_empty req.remote_group_id;
  direction = req.direction;
  ether_type = some req.ether_type;
  protocol = some req.protocol;
  port_range_max = some req.port_range_max;
  port_range_min = some req.port_range_min;
  remote_ip_prefix = req.remote_ip_prefix;
}

filter_keeps :
    {A : Type 0} (p : A → Bool) (before rest : List A) (a : A)
    → p a ≡ true
    → (x : A) × (xs : List A) × (filter p (before ++ (a ∷ rest)) ≡ x ∷ xs)
filter_keeps p [] rest a h = (a, filter p rest, ground arith)
filter_keeps {A = A} p (b ∷ before) rest a h =
    let (x, xs, e) = filter_keeps p before rest a h in by_test (p b) x xs e
  where
    by_test :
        (test : Bool) (x : A) (xs : List A)
        → filter p (before ++ (a ∷ rest)) ≡ x ∷ xs
        → (y : A) × (ys : List A) × ((if test
              then b ∷ filter p (before ++ (a ∷ rest))
              else filter p (before ++ (a ∷ rest)))
            ≡ y ∷ ys)
    by_test true x xs e = (b, filter p (before ++ (a ∷ rest)), refl)
    by_test false x xs e = (x, xs, e)

module _ (c : Client) (group cidr : Str) where
  open c use {State, security_groups, subnet_cidr}

  made-compare_security_group :
      (id : Str) (port : ServicePort)
      → compare_security_group
          (as_asked id (port_rule c group cidr port))
          (port_filter c group cidr port)
        ≡ true
  made-compare_security_group id port =
      (compare_security_group-Matches (as_asked id (port_rule c group cidr port))
          (port_filter c group cidr port)).1
        (
          inl refl,
          (
            inr refl,
            (inl refl, (inr refl, (inl refl, (inr refl, (inr refl, (inr refl, inr refl)))))),
          ),
        )

  -- The rule of a port stands among these, as the API made it.
  abbrev pub HasMadeRule : List SecurityGroupRule → ServicePort → Type 0
  HasMadeRule rules port =
      (id : Str) × (before rest : List SecurityGroupRule) × (rules
        ≡ before ++ (as_asked id (port_rule c group cidr port) ∷ rest))

  rules_of-found :
      (port : ServicePort) (g : SecurityGroup) (s : State)
      → group ≢ []
      → security_groups.get group s ≡ (ok g, s)
      → HasMadeRule g.rules port
      → (rule : SecurityGroupRule) × (rules : List SecurityGroupRule) × (get_security_group_rules c
            (port_filter c group cidr port)
            s
          ≡ (ok (rule ∷ rules), s))
  unfolding get_security_group_rules rules_of
  rules_of-found port g s named got (id, before, rest, e) =
      let (rule, rules, kept) =
        filter_keeps (λ rule. compare_security_group rule (port_filter c group cidr port)) before
          rest (as_asked id (port_rule c group cidr port)) (made-compare_security_group id port) in
      (rule, rules, rw (==_of_neq named, got, e, kept) refl)

  ensure_port_rules-HasMadeRule :
      (subnet_id : Str) (ports : List ServicePort) (g : SecurityGroup) (s : State)
      → group ≢ []
      → subnet_cidr subnet_id s ≡ (ok cidr, s)
      → security_groups.get group s ≡ (ok g, s)
      → All (HasMadeRule g.rules) ports
      → ensure_port_rules c group subnet_id ports s ≡ (ok tt, s)
  unfolding ensure_port_rules create_port_rule
  ensure_port_rules-HasMadeRule subnet_id [] g s named cidr_read got has = refl
  ensure_port_rules-HasMadeRule subnet_id (port ∷ ports) g s named cidr_read got (has, others) =
      let (rule, rules, found) = rules_of-found port g s named got has in
      let rest = ensure_port_rules-HasMadeRule subnet_id ports g s named cidr_read got others in
      rw (cidr_read, found, rest) refl

module _ (c : Client) where
  open c use {State, IP, security_groups, subnet_cidr}

  -- The node's instance is found, and has the group.
  abbrev pub HasGroup : Str → State → Node → Type 0
  HasGroup name s node =
      (i : Instance IP) × (get_instance_by_node c node s ≡ (ok i, s)) × (has_group name i ≡ true)

  apply_node_security_group_id_for_lb-HasGroup :
      (name : Str) (nodes : List Node) (s : State)
      → All (HasGroup name s) nodes
      → apply_node_security_group_id_for_lb c nodes name s ≡ (ok tt, s)
  unfolding apply_node_security_group_id_for_lb apply_to_node
  apply_node_security_group_id_for_lb-HasGroup name [] s has = refl
  apply_node_security_group_id_for_lb-HasGroup name (node ∷ nodes) s ((i, found, h), others) =
      rw (found, h, apply_node_security_group_id_for_lb-HasGroup name nodes s others) refl

  -- The Service's group is listed, every port has its rule in it, and every node has the group; the
  -- API answers without a change of the state.
  abbrev pub IsGrouped : Service → List Node → Str → State → Type 0
  IsGrouped svc nodes subnet_id s =
      (groups : List SecurityGroup) × (cidr : Str) × (g : SecurityGroup) × (security_groups.list s
        ≡ (ok groups, s))
      × (group_id (get_security_group_name svc) groups ≢ [])
      × (subnet_cidr subnet_id s ≡ (ok cidr, s))
      × (security_groups.get (group_id (get_security_group_name svc) groups) s ≡ (ok g, s))
      × All (HasMadeRule c (group_id (get_security_group_name svc) groups) cidr g.rules) svc.ports
      × All (HasGroup (get_security_group_name svc) s) nodes

  -- Where a Service has a port, its security group is listed with the rule of every port as it was
  -- asked to be made, every node's instance has the group, and the API answers without a change:
  -- ensureSecurityGroup returns no error and leaves the state as it is.
  pub ensure_security_group-IsGrouped :
      (svc : Service) (nodes : List Node) (subnet_id : Str) (s : State)
      → has_ports c svc.ports s ≡ (ok tt, s)
      → IsGrouped svc nodes subnet_id s
      → ensure_security_group c svc nodes subnet_id s ≡ (ok tt, s)
  unfolding ensure_security_group existing_or_created
  ensure_security_group-IsGrouped svc nodes subnet_id s ports
        (groups, cidr, g, listed, named, read, got, rules, has) =
      rw
        (
          ports,
          listed,
          ==_of_neq named,
          ensure_port_rules-HasMadeRule c (group_id (get_security_group_name svc) groups) cidr
              subnet_id svc.ports g s named read got rules,
          apply_node_security_group_id_for_lb-HasGroup (get_security_group_name svc) nodes s has,
        )
        refl
