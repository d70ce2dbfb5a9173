-- ===== src/SecurityGroups/Ensure/Admitted.antt =====
-- ensureSecurityGroup of internal/edgecenter/loadbalancer_securitygroups.go lets the ports in.
use edgecenter_ccm.Prelude.{
  String, Exec, Outcome, pure, Bool-cases, ◌≢◌, ap, sym, ◌∙◌, ◌>>=◌, arith, Str, none, some, Bool,
  true, false, List, [], ◌∷◌, filter, if◌then◌else◌, All, codes, ◌⊎◌, inl, inr, ok, wrapping,
  >>=-eq-ok, wrapping-eq-ok, pure-eq-ok, ◌≡◌, refl, subst, ◌==◌, str_eq,
}
use edgecenter_ccm.Cloud.Types.{
  ServicePort, Service, Node, SecurityGroup, SecurityGroupRule, RuleCreate,
}
use edgecenter_ccm.Cloud.Client.{Client}
use edgecenter_ccm.Loadbalancer.Names.{get_security_group_name}
use edgecenter_ccm.SecurityGroups.Rules.{
  RuleListOpts, compare_security_group, get_security_group_rules, rules_of, rules_of_all,
  to_rule_protocol,
}
use edgecenter_ccm.SecurityGroups.Rules.Matching.{Matches, compare_security_group-Matches}
use edgecenter_ccm.SecurityGroups.Nodes.{apply_node_security_group_id_for_lb}
use edgecenter_ccm.SecurityGroups.Ensure.{
  port_filter, create_port_rule, ensure_port_rules, ensure_security_group, has_ports,
  existing_or_created, group_id,
}

filter-All : {A : Type 0} (p : A → Bool) (xs : List A) → All (λ x. p x ≡ true) (filter p xs)
filter-All p [] = tt
filter-All p (x ∷ xs) = by_test (p x) refl (filter-All p xs)
  where
    by_test :
        (b : Bool)
        → p x ≡ b
        → All (λ y. p y ≡ true) (filter p xs)
        → All (λ y. p y ≡ true) (if b then x ∷ filter p xs else filter p xs)
    by_test true e rest = (e, rest)
    by_test false e rest = rest

All-compare :
    (opts : RuleListOpts) (rules : List SecurityGroupRule)
    → All (λ rule. compare_security_group rule opts ≡ true) rules
    → All (λ rule. Matches rule opts) rules
All-compare opts [] h = tt
All-compare opts (r ∷ rules) (e, h) =
    ((compare_security_group-Matches r opts).0 e, All-compare opts rules h)

-- The ID of the first group of a name, the empty one where there is none
abbrev pub IdOfName : Str → List SecurityGroup → Str → Type 0
IdOfName name [] id = id ≡ []
IdOfName name (g ∷ groups) id =
    ((g.name ≡ name) × (id ≡ g.id)) ⊎ ((g.name ≢ name) × IdOfName name groups id)

group_id-IdOfName :
    (name : Str) (groups : List SecurityGroup) → IdOfName name groups (group_id name groups)
unfolding group_id
group_id-IdOfName name [] = refl
group_id-IdOfName name (g ∷ groups) = elim (Bool-cases (g.name == name)) [
  | inl e ↦ inl (ground arith, rw e refl)
  | inr e ↦ inr (
    λ same. ground arith,
    subst (IdOfName name groups) (sym (rw e refl)) (group_id-IdOfName name groups),
  )
]

module _ (c : Client) where
  open c use {State, security_groups, subnet_cidr, rule_protocol_is_valid}

  -- Whatever the lookup of rules returns satisfies the filter.
  pub get_security_group_rules-Matches :
      (opts : RuleListOpts) (rules : List SecurityGroupRule) (s t : State)
      → get_security_group_rules c opts s ≡ (ok rules, t)
      → All (λ rule. Matches rule opts) rules
  unfolding get_security_group_rules
  get_security_group_rules-Matches opts rules s t h =
      let (all, s1, _, h1) =
        >>=-eq-ok
          (if opts.security_group_id == []
            then rules_of_all c
            else rules_of c opts.security_group_id)
          _ s h in
      subst (All (λ rule. Matches rule opts)) (pure-eq-ok h1)
        (All-compare opts _ (filter-All (λ rule. compare_security_group rule opts) all))

  -- The rule that is requested for a port: inbound IPv4 traffic of the port's protocol, from the
  -- subnet to the node port.
  abbrev pub port_rule : Str → Str → ServicePort → RuleCreate
  port_rule group cidr port = record {
    direction = codes "ingress";
    ether_type = codes "IPv4";
    protocol = to_rule_protocol rule_protocol_is_valid port.protocol;
    security_group_id = group;
    remote_group_id = none;
    port_range_max = port.node_port;
    port_range_min = port.node_port;
    remote_ip_prefix = some cidr;
  }

  -- With the subnet's CIDR, the API lists a rule that satisfies the port's filter, or it accepts the
  -- request for one.
  abbrev pub Admitted : Str → Str → ServicePort → Type 0
  Admitted group subnet_id port =
      (cidr : Str) × (s1 s2 s3 s4 : State) × (rules : List SecurityGroupRule) × (subnet_cidr
          subnet_id s1
        ≡ (ok cidr, s2))
      × (get_security_group_rules c (port_filter c group cidr port) s2 ≡ (ok rules, s3))
      × (((rule : SecurityGroupRule) × (rest : List SecurityGroupRule) × (rules ≡ rule ∷ rest)
            × Matches rule (port_filter c group cidr port))
          ⊎ (security_groups.rule_create group (port_rule group cidr port) s3 ≡ (ok tt, s4)))

  create_port_rule-Admitted :
      (group cidr : Str) (port : ServicePort) (rules : List SecurityGroupRule) (s t : State)
      → All (λ rule. Matches rule (port_filter c group cidr port)) rules
      → create_port_rule c group cidr port rules s ≡ (ok tt, t)
      → ((rule : SecurityGroupRule) × (rest : List SecurityGroupRule) × (rules ≡ rule ∷ rest)
          × Matches rule (port_filter c group cidr port))
        ⊎ (security_groups.rule_create group (port_rule group cidr port) s ≡ (ok tt, t))
  unfolding create_port_rule
  create_port_rule-Admitted group cidr port (r ∷ rules) s t (m, _) h = inl (r, rules, refl, m)
  create_port_rule-Admitted group cidr port [] s t m h = inr (
      wrapping-eq-ok "failed to create rule for security group %s: "
        (security_groups.rule_create group (port_rule group cidr port)) s h)

  ensure_port_rules-Admitted :
      (group subnet_id : Str) (ports : List ServicePort) (s t : State)
      → ensure_port_rules c group subnet_id ports s ≡ (ok tt, t)
      → All (Admitted group subnet_id) ports
  unfolding ensure_port_rules
  ensure_port_rules-Admitted group subnet_id [] s t h = tt
  ensure_port_rules-Admitted group subnet_id (port ∷ ports) s t h =
      let (cidr, s2, e1, h1) =
        >>=-eq-ok
          (wrapping "failed to find subnet %s from edgecenter API: " (subnet_cidr subnet_id)) _ s
          h in
      let opts = port_filter c group cidr port in
      let (rules, s3, e2, h2) =
        >>=-eq-ok
          (wrapping "failed to find security group rules in %s: " (get_security_group_rules c opts))
          _ s2 h1 in
      let (_, s4, e3, h3) = >>=-eq-ok (create_port_rule c group cidr port rules) _ s3 h2 in
      let listed =
        wrapping-eq-ok "failed to find security group rules in %s: "
          (get_security_group_rules c opts) s2 e2 in
      (
        (
          cidr,
          s,
          s2,
          s3,
          s4,
          rules,
          wrapping-eq-ok "failed to find subnet %s from edgecenter API: " (subnet_cidr subnet_id) s
              e1,
          listed,
          create_port_rule-Admitted group cidr port rules s3 s4
              (get_security_group_rules-Matches opts rules s2 s3 listed) e3,
        ),
        ensure_port_rules-Admitted group subnet_id ports s4 t h3,
      )

  has_ports-keeps :
      (ports : List ServicePort) (s t : State) → has_ports c ports s ≡ (ok tt, t) → s ≡ t
  unfolding has_ports
  has_ports-keeps [] s t h = ground arith
  has_ports-keeps (p ∷ ports) s t h = ap (λ (x : Outcome (Unit {0}) × State). x.1) h

  -- The group of a name: the first that is listed under it; or, where none is or its ID is empty, one
  -- that the API created under the name after the listing.
  abbrev pub GroupOf : Str → Str → State → State → Type 0
  GroupOf name group s t =
      (groups : List SecurityGroup) × (u : State) × (security_groups.list s ≡ (ok groups, u))
      × (((group ≢ []) × IdOfName name groups group × (u ≡ t))
          ⊎ (IdOfName name groups []
              × ((g : SecurityGroup) × (security_groups.create name u ≡ (ok g, t))
                  × (group ≡ g.id))))

  existing_or_created-GroupOf :
      (name group : Str) (groups : List SecurityGroup) (s u t : State)
      → security_groups.list s ≡ (ok groups, u)
      → existing_or_created c name groups u ≡ (ok group, t)
      → GroupOf name group s t
  unfolding existing_or_created str_eq
  existing_or_created-GroupOf name group groups s u t listed h =
      by_id (group_id name groups) (group_id-IdOfName name groups) h
    where
      text : String
      text = "failed to create Security Group for loadbalancer service %s/%s: opts: %+v "

      create : Exec State Str
      create = do created ← wrapping text (security_groups.create name); pure created.id

      by_id :
          (id : Str)
          → IdOfName name groups id
          → (if id == [] then create else pure id) u ≡ (ok group, t)
          → GroupOf name group s t
      by_id [] found h =
          let (g, v, made, last) = >>=-eq-ok (wrapping text (security_groups.create name)) _ u h in
          (
            groups,
            u,
            listed,
            inr (
              found,
              (
                g,
                wrapping-eq-ok text (security_groups.create name) u made
                    ∙ ap (λ (x : Outcome Str × State). (ok g, x.1)) last,
                sym (pure-eq-ok last),
              ),
            ),
          )
      by_id (b ∷ id) found h =
          let same : b ∷ id ≡ group = pure-eq-ok h in
          (
            groups,
            u,
            listed,
            inl (
              subst (λ (i : Str). i ≢ []) same (λ e. cc),
              subst (IdOfName name groups) same found,
              ap (λ (x : Outcome Str × State). x.1) h,
            ),
          )

  pub ensure_security_group-Admitted :
      (svc : Service) (nodes : List Node) (subnet_id : Str) (s t : State)
      → ensure_security_group c svc nodes subnet_id s ≡ (ok tt, t)
      → (group : Str) × (v u : State) × GroupOf (get_security_group_name svc) group s v
        × (ensure_port_rules c group subnet_id svc.ports v ≡ (ok tt, u))
        × All (Admitted group subnet_id) svc.ports
        × (apply_node_security_group_id_for_lb c nodes (get_security_group_name svc) u ≡ (ok tt, t))
  unfolding ensure_security_group
  ensure_security_group-Admitted svc nodes subnet_id s t h =
      let (_, s1, e1, h1) = >>=-eq-ok (has_ports c svc.ports) _ s h in
      let (groups, s2, e2, h2) = >>=-eq-ok security_groups.list _ s1 h1 in
      let (group, s3, e3, h3) =
        >>=-eq-ok (existing_or_created c (get_security_group_name svc) groups) _ s2 h2 in
      let (_, s4, e4, h4) = >>=-eq-ok (ensure_port_rules c group subnet_id svc.ports) _ s3 h3 in
      (
        group,
        s3,
        s4,
        existing_or_created-GroupOf (get_security_group_name svc) group groups s s2 s3
            (ap security_groups.list (has_ports-keeps svc.ports s s1 e1) ∙ e2) e3,
        e4,
        ensure_port_rules-Admitted group subnet_id svc.ports s3 s4 e4,
        h4,
      )
