-- ===== src/SecurityGroups/Rules/Matching.antt =====
-- compareSecurityGroup of internal/edgecenter/loadbalancer_securitygroups.go as a filter.
use edgecenter_ccm.Prelude.{
  ℕ, Str, Option, none, some, Bool, true, false, not, [], nat_eq, str_eq, if◌then◌else◌, ◌⊎◌, ◌≡◌,
  ◌↔◌, arith, refl,
}
use edgecenter_ccm.Cloud.Types.{SecurityGroupRule}
use edgecenter_ccm.SecurityGroups.Rules.{
  RuleListOpts, compare_security_group, text_differs, pointer_differs, port_differs,
}

-- A filter's field asks for nothing, or for the value of the rule.
abbrev pub Allows : Str → Str → Type 0
Allows check exists = (check ≡ []) ⊎ (exists ≡ check)

abbrev pub AllowsText : Str → Option Str → Type 0
AllowsText check exists = (check ≡ []) ⊎ (exists ≡ some check)

abbrev pub AllowsPort : ℕ → Option ℕ → Type 0
AllowsPort check exists = (check ≡ 0) ⊎ (exists ≡ some check)

text_differs_iff : (check exists : Str) → (text_differs check exists ≡ false) ↔ Allows check exists
text_differs_iff check exists = ground arith

pointer_differs_iff :
    (check : Str) (exists : Option Str)
    → (pointer_differs check exists ≡ false) ↔ AllowsText check exists
pointer_differs_iff check none = ground arith
pointer_differs_iff check (some exists) = ground arith

port_differs_iff :
    (check : ℕ) (exists : Option ℕ) → (port_differs check exists ≡ false) ↔ AllowsPort check exists
port_differs_iff check none = ground arith
port_differs_iff check (some exists) = ground arith

abbrev pub Matches : SecurityGroupRule → RuleListOpts → Type 0
Matches rule opts =
    Allows opts.id rule.id
    × (Allows opts.security_group_id rule.security_group_id
        × (Allows opts.remote_group_id rule.remote_group_id
            × (Allows opts.direction rule.direction
                × (AllowsText opts.ether_type rule.ether_type
                    × (AllowsText opts.protocol rule.protocol
                        × (AllowsPort opts.port_range_max rule.port_range_max
                            × (AllowsPort opts.port_range_min rule.port_range_min
                                × AllowsText opts.remote_ip_prefix rule.remote_ip_prefix)))))))

guarded :
    {P Q : Type 0} (b rest : Bool)
    → ((b ≡ false) ↔ P)
    → ((rest ≡ true) ↔ Q)
    → ((if b then false else rest) ≡ true) ↔ (P × Q)
guarded true rest p q = (λ h. ground arith, λ h. absurd (ground (arith, p.1 h.0)))
guarded false rest p q = (λ h. (p.0 refl, q.0 h), λ h. q.1 h.1)

last_guard : {P : Type 0} (b : Bool) → ((b ≡ false) ↔ P) → (not b ≡ true) ↔ P
last_guard true p = (λ h. ground arith, λ h. absurd (ground (arith, p.1 h)))
last_guard false p = (λ h. p.0 refl, λ h. refl)

-- A rule is taken exactly when each field of the filter asks for nothing or for the rule's value;
-- a field that the rule lacks satisfies only a filter that asks for nothing.
pub compare_security_group-Matches :
    (rule : SecurityGroupRule) (opts : RuleListOpts)
    → (compare_security_group rule opts ≡ true) ↔ Matches rule opts
unfolding compare_security_group
compare_security_group-Matches rule opts = guarded _ _ (text_differs_iff opts.id rule.id) (
    guarded _ _ (text_differs_iff opts.security_group_id rule.security_group_id) (
      guarded _ _ (text_differs_iff opts.remote_group_id rule.remote_group_id) (
        guarded _ _ (text_differs_iff opts.direction rule.direction) (
          guarded _ _ (pointer_differs_iff opts.ether_type rule.ether_type) (
            guarded _ _ (pointer_differs_iff opts.protocol rule.protocol) (
              guarded _ _ (port_differs_iff opts.port_range_max rule.port_range_max) (
                guarded _ _ (port_differs_iff opts.port_range_min rule.port_range_min) (
                  last_guard _
                    (pointer_differs_iff opts.remote_ip_prefix rule.remote_ip_prefix)))))))))
