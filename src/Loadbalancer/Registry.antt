-- ===== src/Loadbalancer/Registry.antt =====
-- The maps by port key, and the sets of IDs in use, that the phases of ensureLoadBalancerListeners
-- and ensureLoadBalancerPools build.
use edgecenter_ccm.Prelude.{
  Str, some, Bool, true, false, not, List, [], ◌∷◌, any, filter, ◌==◌, str_eq, if◌then◌else◌, Dict,
  lookup, insert, lookup-insert, All, In, inl, inr, ◌≡◌, arith, refl, Bool-cases,
}

module _ {V : Type 0} (id : V → Str) where
  abbrev pub Bound : Str → Dict V → Type 0
  Bound k m = (v : V) × (lookup k m ≡ some v)

  -- Whatever the map holds is in use.
  abbrev pub Covered : Dict V → List Str → Type 0
  Covered m used = (k : Str) (v : V) → lookup k m ≡ some v → In (id v) used

  -- A key that has a binding, whose value is none of the values in `gone`.
  abbrev pub Served : Dict V → List V → Str → Type 0
  Served m gone k = (v : V) × (lookup k m ≡ some v) × All (λ w. ¬ (id w ≡ id v)) gone

  pub insert-Bound : (k j : Str) (v : V) (m : Dict V) → Bound k m → Bound k (insert j v m)
  insert-Bound k j v m (w, h) = elim (Bool-cases (j == k)) [
    | inl e ↦ (v, ground (arith, lookup-insert j k v m))
    | inr e ↦ (w, ground (arith, lookup-insert j k v m))
  ]

  pub insert-Covered :
      (k : Str) (v : V) (m : Dict V) (used : List Str)
      → Covered m used
      → Covered (insert k v m) (id v ∷ used)
  insert-Covered k v m used h j w e = elim (Bool-cases (k == j)) [
    | inl p ↦ inl (ground (arith, lookup-insert k j v m))
    | inr p ↦ inr (h j w (ground (arith, lookup-insert k j v m)))
  ]

  any_of_In : (i : Str) (used : List Str) → In i used → any (λ k. k == i) used ≡ true
  any_of_In i [] h = absurd h
  any_of_In i (k ∷ used) (inl e) = ground arith
  any_of_In i (k ∷ used) (inr h) = ground (arith, any_of_In i used h)

  -- What is left over has no ID in use.
  pub leftover-fresh :
      (used : List Str) (xs : List V) (i : Str)
      → In i used
      → All (λ x. ¬ (id x ≡ i)) (filter (λ x. not (any (λ k. k == id x) used)) xs)
  leftover-fresh used [] i h = tt
  leftover-fresh used (x ∷ xs) i h =
      by_test (any (λ k. k == id x) used) refl (leftover-fresh used xs i h)
    where
      by_test :
          (b : Bool)
          → any (λ k. k == id x) used ≡ b
          → All (λ x. ¬ (id x ≡ i)) (filter (λ x. not (any (λ k. k == id x) used)) xs)
          → All
              (λ x. ¬ (id x ≡ i))
              (if not b
                then x ∷ filter (λ x. not (any (λ k. k == id x) used)) xs
                else filter (λ x. not (any (λ k. k == id x) used)) xs)
      by_test true e rest = rest
      by_test false e rest = (λ same. ground (arith, any_of_In i used h), rest)
