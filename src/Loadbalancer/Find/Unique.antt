-- ===== src/Loadbalancer/Find/Unique.antt =====
-- Which load balancer getLoadbalancerByName of internal/edgecenter/loadbalancer.go finds.
use edgecenter_ccm.Prelude.{
  Str, Bool, true, false, List, [], ◌∷◌, filter, ok, ◌⊎◌, inl, inr, ◌↔◌, ◌≡◌, refl, arith,
  Bool-cases, All,
}
use edgecenter_ccm.Cloud.Types.{Loadbalancer}
use edgecenter_ccm.Cloud.Client.{Client}
use edgecenter_ccm.Loadbalancer.Find.{is_valid, by_name, by_legacy_name, get_loadbalancer_by_name}

module _ {A : Type 0} (p : A → Bool) where
  abbrev pub NoneOf : List A → Type 0
  NoneOf xs = All (λ x. p x ≡ false) xs

  -- One place in the list passes the test, and it holds `a`.
  abbrev pub Sole : List A → A → Type 0
  Sole [] a = ⊥
  Sole (x ∷ xs) a = ((p x ≡ true) × (x ≡ a) × NoneOf xs) ⊎ ((p x ≡ false) × Sole xs a)

  filter-NoneOf : (xs : List A) → (filter p xs ≡ []) ↔ NoneOf xs
  filter-NoneOf [] = (λ h. tt, λ h. refl)
  filter-NoneOf (x ∷ xs) = elim (Bool-cases (p x)) [
    | inl e ↦ (λ h. ground arith, λ h. ground arith)
    | inr e ↦ (
      λ h. (e, (filter-NoneOf xs).0 (ground arith)),
      λ h. ground (arith, (filter-NoneOf xs).1 h.1),
    )
  ]

  filter-Sole : (xs : List A) (a : A) → (filter p xs ≡ a ∷ []) ↔ Sole xs a
  filter-Sole [] a = (λ h. ground arith, λ h. absurd h)
  filter-Sole (x ∷ xs) a = elim (Bool-cases (p x)) [
    | inl e ↦ (
      λ h. inl (e, ground arith, (filter-NoneOf xs).0 (ground arith)),
      λ h. elim h [
        | inl (_, same, none_of) ↦ ground (arith, (filter-NoneOf xs).1 none_of)
        | inr (no_match, _) ↦ ground arith
      ],
    )
    | inr e ↦ (
      λ h. inr (e, (filter-Sole xs a).0 (ground arith)),
      λ h. elim h [
        | inl (is_match, _, _) ↦ ground arith
        | inr (_, sole) ↦ ground (arith, (filter-Sole xs a).1 sole)
      ],
    )
  ]

module _ (c : Client) where
  open c use {State, IP, loadbalancers}

  abbrev pub SoleOfName : Str → Str → List (Loadbalancer IP) → Loadbalancer IP → Type 0
  SoleOfName name legacy_name all lb =
      Sole (is_valid name) all lb
      ⊎ (NoneOf (is_valid name) all × Sole (is_valid legacy_name) all lb)

  by_name-eq-ok :
      (lbs legacy : List (Loadbalancer IP)) (lb : Loadbalancer IP) (t : State)
      → (by_name c lbs legacy t ≡ (ok lb, t))
        ↔ ((lbs ≡ lb ∷ []) ⊎ ((lbs ≡ []) × (legacy ≡ lb ∷ [])))
  unfolding by_name by_legacy_name
  by_name-eq-ok [] [] lb t = ground arith
  by_name-eq-ok [] (x ∷ []) lb t = ground arith
  by_name-eq-ok [] (x ∷ y ∷ xs) lb t = ground arith
  by_name-eq-ok (x ∷ []) legacy lb t = ground arith
  by_name-eq-ok (x ∷ y ∷ xs) legacy lb t = ground arith

  -- Given the load balancers that the API lists, the one that is returned for a name is the only
  -- one of the name that is neither deleted nor being deleted; or, where the name has none, the
  -- only such one of the legacy name. No other answer is returned without an error.
  pub get_loadbalancer_by_name-SoleOfName :
      (name legacy_name : Str) (all : List (Loadbalancer IP)) (lb : Loadbalancer IP) (s t : State)
      → loadbalancers.list s ≡ (ok all, t)
      → (get_loadbalancer_by_name c name legacy_name s ≡ (ok lb, t))
        ↔ SoleOfName name legacy_name all lb
  unfolding get_loadbalancer_by_name
  get_loadbalancer_by_name-SoleOfName name legacy_name all lb s t listed = rw listed (
      let found =
        by_name-eq-ok (filter (is_valid name) all) (filter (is_valid legacy_name) all) lb t in
      (
        λ h. elim (found.0 h) [
          | inl e ↦ inl ((filter-Sole (is_valid name) all lb).0 e)
          | inr (none_of, e) ↦ inr (
            (filter-NoneOf (is_valid name) all).0 none_of,
            (filter-Sole (is_valid legacy_name) all lb).0 e,
          )
        ],
        λ h. elim h [
          | inl sole ↦ found.1 (inl ((filter-Sole (is_valid name) all lb).1 sole))
          | inr (none_of, sole) ↦ found.1 (
              inr (
                (filter-NoneOf (is_valid name) all).1 none_of,
                (filter-Sole (is_valid legacy_name) all lb).1 sole,
              ))
        ],
      ))
