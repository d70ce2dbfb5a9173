-- ===== src/SecurityGroups/Rules.antt =====
-- The rules of a security group: filters, lookup and creation.
pub mod Matching
use edgecenter_ccm.Prelude.{
  ℕ, Str, Option, none, some, Bool, false, not, ◌&&◌, List, [], ◌∷◌, ◌++◌, filter, codes, to_lower,
  split, ltb, ◌==◌, nat_eq, str_eq, if◌then◌else◌, Exec, pure, ◌>>=◌, ◌>>◌,
}
use edgecenter_ccm.Cloud.Types.{SecurityGroup, SecurityGroupRule, RuleCreate, Service}
use edgecenter_ccm.Cloud.Client.{Client}

-- SecurityGroupRuleListOpts; "" and 0 ask for nothing
pub record RuleListOpts : Type 0 where
  pub id : Str
  pub security_group_id : Str
  pub remote_group_id : Str
  pub direction : Str
  pub ether_type : Str
  pub protocol : Str
  pub port_range_max : ℕ
  pub port_range_min : ℕ
  pub remote_ip_prefix : Str

-- `check != "" && exists != check`, and the same for pointers
abbrev pub text_differs : Str → Str → Bool
text_differs check exists = not (check == []) && not (exists == check)

abbrev pub pointer_differs : Str → Option Str → Bool
pointer_differs check none = not (check == [])
pointer_differs check (some exists) = not (check == []) && not (exists == check)

abbrev pub port_differs : ℕ → Option ℕ → Bool
port_differs check none = not (check == 0)
port_differs check (some exists) = not (check == 0) && not (exists == check)

unfoldable pub compare_security_group : SecurityGroupRule → RuleListOpts → Bool
compare_security_group exists check =
    if text_differs check.id exists.id
    then false
    else if text_differs check.security_group_id exists.security_group_id
    then false
    else if text_differs check.remote_group_id exists.remote_group_id
    then false
    else if text_differs check.direction exists.direction
    then false
    else if pointer_differs check.ether_type exists.ether_type
    then false
    else if pointer_differs check.protocol exists.protocol
    then false
    else if port_differs check.port_range_max exists.port_range_max
    then false
    else if port_differs check.port_range_min exists.port_range_min
    then false
    else not (pointer_differs check.remote_ip_prefix exists.remote_ip_prefix)

-- isSecurityGroupNotFound, on reflect.TypeOf(err).String(): the part behind the last dot
abbrev last_part : List Str → Str
last_part [] = []
last_part (part ∷ []) = part
last_part (part ∷ next ∷ parts) = last_part (next ∷ parts)

unfoldable pub is_security_group_not_found : Str → Bool
is_security_group_not_found type_name =
    last_part (split b'.' type_name) == codes "ResourceNotFoundError"

-- The protocols for which SecurityGroupRuleProtocol.IsValid returns no error are an argument.
unfoldable pub to_rule_protocol : (Str → Bool) → Str → Str
unfolding to_lower
to_rule_protocol is_valid protocol =
    if is_valid (to_lower protocol) then to_lower protocol else codes "tcp"

module _ (c : Client) where
  open c use {State, security_groups}

  all_rules : List SecurityGroup → List SecurityGroupRule
  all_rules [] = []
  all_rules (g ∷ groups) = g.rules ++ all_rules groups

  unfoldable pub rules_of_all : Exec State (List SecurityGroupRule)
  unfolding all_rules
  rules_of_all = do groups ← security_groups.list; pure (all_rules groups)

  unfoldable pub rules_of : Str → Exec State (List SecurityGroupRule)
  rules_of id = do group ← security_groups.get id; pure group.rules

  unfoldable pub get_security_group_rules : RuleListOpts → Exec State (List SecurityGroupRule)
  unfolding rules_of rules_of_all
  get_security_group_rules opts = do
    rules ← (if opts.security_group_id == [] then rules_of_all else rules_of opts.security_group_id)
    pure (filter (λ rule. compare_security_group rule opts) rules)

  abbrev node_rule : (Str → Bool) → Str → Str → Str → Str → ℕ → RuleCreate
  node_rule is_valid ether_type group remote protocol port = record {
    direction = codes "ingress";
    ether_type = ether_type;
    protocol = to_rule_protocol is_valid protocol;
    security_group_id = group;
    remote_group_id = some remote;
    port_range_max = port;
    port_range_min = port;
    remote_ip_prefix = none;
  }

  health_check_rule : (Str → Bool) → Str → Str → Service → Exec State (Unit {0})
  health_check_rule is_valid group remote svc =
      if ltb 0 svc.health_check_node_port && svc.traffic_policy_local
      then security_groups.rule_create group (record {
        direction = codes "ingress";
        ether_type = codes "IPv4";
        protocol = codes "tcp";
        security_group_id = group;
        remote_group_id = some remote;
        port_range_max = svc.health_check_node_port;
        port_range_min = svc.health_check_node_port;
        remote_ip_prefix = none;
      })
      else pure tt

  unfoldable pub create_node_security_group_rules :
      (Str → Bool) → Str → ℕ → Str → Str → Service → Exec State (Unit {0})
  unfolding health_check_rule
  create_node_security_group_rules is_valid group port protocol remote svc = do
    security_groups.rule_create group (node_rule is_valid (codes "IPv4") group remote protocol port)
    security_groups.rule_create group (node_rule is_valid (codes "IPv6") group remote protocol port)
    health_check_rule is_valid group remote svc
