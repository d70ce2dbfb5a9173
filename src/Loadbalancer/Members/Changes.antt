-- ===== src/Loadbalancer/Members/Changes.antt =====
-- membersChanged of internal/edgecenter/loadbalancer_pools.go compares sets of members.
use mathlib.Core.List.{Nodup, Perm}
use mathlib.Core.List.Perm
use edgecenter_ccm.Prelude.{
  suc, Str, false, not, List, [], ◌∷◌, map, any, length, nat_eq, str_eq, lacks, lacks_of_Subset,
  perm_of_Subset, Subset_of_lacks, length_of_Perm, All, subst, ◌≡◌, refl, ap, sym, ◌∙◌, ◌↔◌, arith,
}
use edgecenter_ccm.Cloud.Types.{PoolMember, MemberCreate}
use edgecenter_ccm.Cloud.Client.{IpText}
use edgecenter_ccm.Loadbalancer.Names.{address_text, pool_member_key, pool_member_create_key}
use edgecenter_ccm.Loadbalancer.Members.Keys.{
  Place, place_text, IsPlain, Subset_of_texts, texts-Subset,
}
use edgecenter_ccm.Loadbalancer.Members.{in_set, member_keys, members_changed}

module _ {IP : Type 0} (ip : IpText IP) where
  lacks-map :
      (keys : List Str) (desired : List (MemberCreate IP))
      → lacks keys (map (pool_member_create_key ip) desired)
        ≡ any (λ d. not (in_set ip keys (pool_member_create_key ip d))) desired
  lacks-map keys [] = refl
  lacks-map keys (d ∷ desired) = rw (lacks-map keys desired)

  pub length-map {ℓ κ} :
      {A : Type ℓ} {B : Type κ} (f : A → B) (xs : List A) → length (map f xs) ≡ length xs
  length-map f [] = refl
  length-map f (x ∷ xs) = ap suc (length-map f xs)

  abbrev pub place_of : PoolMember IP → Place
  place_of m = (address_text ip m.address, (m.protocol_port, m.subnet_id))

  abbrev pub place_wanted : MemberCreate IP → Place
  place_wanted m = (address_text ip m.address, (m.protocol_port, m.subnet_id))

  pub member_keys-places :
      (members : List (PoolMember IP))
      → member_keys ip members ≡ map place_text (map place_of members)
  unfolding pool_member_key
  member_keys-places [] = refl
  member_keys-places (m ∷ members) =
      ap (λ (ks : List Str). place_text (place_of m) ∷ ks) (member_keys-places members)

  pub desired_keys-places :
      (members : List (MemberCreate IP))
      → map (pool_member_create_key ip) members ≡ map place_text (map place_wanted members)
  unfolding pool_member_create_key
  desired_keys-places [] = refl
  desired_keys-places (m ∷ members) =
      ap (λ (ks : List Str). place_text (place_wanted m) ∷ ks) (desired_keys-places members)

  same_length_and_keys :
      (current : List (PoolMember IP)) (desired : List (MemberCreate IP))
      → (members_changed ip current desired ≡ false) ↔ (
          (length current ≡ length desired)
          × (lacks (member_keys ip current) (map (pool_member_create_key ip) desired) ≡ false))
  unfolding members_changed
  same_length_and_keys current desired = rw lacks-map (ground arith)

  pub same_length_and_texts :
      (current : List (PoolMember IP)) (desired : List (MemberCreate IP))
      → (members_changed ip current desired ≡ false) ↔ (
          (length current ≡ length desired)
          × (lacks
                (map place_text (map place_of current))
                (map place_text (map place_wanted desired))
              ≡ false))
  same_length_and_texts current desired =
      subst
        (λ (k : List Str × List Str).
          (members_changed ip current desired ≡ false)
          ↔ ((length current ≡ length desired) × (lacks k.0 k.1 ≡ false)))
        (λ i. (member_keys-places current i, desired_keys-places desired i))
        (same_length_and_keys current desired)

  length_of_perm :
      (current : List (PoolMember IP)) (desired : List (MemberCreate IP))
      → Perm (map place_wanted desired) (map place_of current)
      → length current ≡ length desired
  length_of_perm current desired p =
      sym (length-map _ current) ∙ sym (length_of_Perm p) ∙ length-map _ desired

  -- Where no subnet's ID has a bar and the desired members are distinct, no change is reported
  -- exactly when the pool's members are the desired ones up to order: the same texts of addresses,
  -- ports and subnets.
  pub members_changed-eq-false_iff :
      (current : List (PoolMember IP)) (desired : List (MemberCreate IP))
      → All IsPlain (map place_of current)
      → All IsPlain (map place_wanted desired)
      → Nodup (map place_wanted desired)
      → (members_changed ip current desired ≡ false)
        ↔ Perm (map place_wanted desired) (map place_of current)
  members_changed-eq-false_iff current desired plain plain_desired distinct = (
    λ h.
        let (same, none_lacks) = (same_length_and_texts current desired).0 h in
        perm_of_Subset _ _ distinct (length-map _ current ∙ same ∙ sym (length-map _ desired))
          (Subset_of_texts _ _ plain plain_desired (Subset_of_lacks _ _ none_lacks)),
    λ p.
        (same_length_and_texts current desired).1 (
          length_of_perm current desired p,
          lacks_of_Subset _ _ (texts-Subset _ _ (Perm.subset p)),
        ),
  )
