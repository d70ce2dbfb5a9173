-- ===== src/Util/IpNets/Sets.antt =====
-- internal/util/net/sets/ipnet.go: the sets as sets.
use mathlib.Core.List.{Nodup, Perm}
use mathlib.Core.List.Perm
use edgecenter_ccm.Prelude.{
  true, not, [], ◌∷◌, any, all, ◌==◌, nat_eq, str_eq, lacks, lacks_of_Subset, perm_of_lacks,
  length_of_Perm, ◌≡◌, ◌↔◌, arith, refl,
}
use edgecenter_ccm.Util.IpNets.{IpNets, has, is_superset, equal}

all-lacks : (s s2 : IpNets) → all (λ k. any (λ j. j == k) s) s2 ≡ not (lacks s s2)
all-lacks s [] = refl
all-lacks s (k ∷ s2) = ground (arith, all-lacks s s2)

-- Equal answers true on two sets, given with each key once, exactly when one is a permutation of
-- the other.
pub equal-Perm_iff : (s s2 : IpNets) → Nodup s2 → (equal s s2 ≡ true) ↔ Perm s2 s
unfolding equal is_superset has
equal-Perm_iff s s2 once = (
  λ h. perm_of_lacks s s2 once (ground arith) (ground (arith, all-lacks s s2)),
  λ p.
      let same = length_of_Perm p in
      let none_lacks = lacks_of_Subset s s2 (Perm.subset p) in ground (arith, all-lacks s s2),
)
