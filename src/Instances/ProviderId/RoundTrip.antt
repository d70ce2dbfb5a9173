-- ===== src/Instances/ProviderId/RoundTrip.antt =====
-- buildProviderID and instanceIDFromProviderID of internal/edgecenter/instances.go are inverse.
use edgecenter_ccm.Prelude.{
  Str, Option, none, some, false, [], ◌∷◌, ◌++◌, codes, contains, has_prefix, ◌==◌, nat_eq, str_eq,
  ok, ◌≡◌, refl, arith, Bool-cases, inl, inr, ℕ_discrete, subst,
}
use edgecenter_ccm.Instances.ProviderId.{
  build_provider_id, instance_id_from_provider_id, match_provider_id, with_scheme, strip_prefix,
  has_slash, scheme, instance_part, or_mismatch,
}

strip_prefix-append : (p s : Str) → strip_prefix p (p ++ s) ≡ some s
unfolding strip_prefix
strip_prefix-append [] s = refl
strip_prefix-append (c ∷ p) s = ground (arith, strip_prefix-append p s)

strip_prefix-eq-some : (p s rest : Str) → strip_prefix p s ≡ some rest → s ≡ p ++ rest
unfolding strip_prefix
strip_prefix-eq-some [] s rest h = ground arith
strip_prefix-eq-some (d ∷ p) [] rest h = ground arith
strip_prefix-eq-some (d ∷ p) (c ∷ s) rest h = elim (Bool-cases (c == d)) [
  | inl e ↦ ground (arith, strip_prefix-eq-some p s rest (ground arith))
  | inr e ↦ ground arith
]

with_scheme-build : (id : Str) → with_scheme (build_provider_id id) ≡ build_provider_id id
unfolding with_scheme build_provider_id contains has_prefix codes nat_eq ℕ_discrete
with_scheme-build id = refl

build_provider_id-eq : (id : Str) → build_provider_id id ≡ scheme ++ id
unfolding build_provider_id codes
build_provider_id-eq id = refl

-- The provider ID that is built for an instance's ID, which is not empty and has no slash, is read
-- back as that ID.
pub instance_id_from_provider_id-build_provider_id :
    (id : Str)
    → ¬ (id ≡ [])
    → has_slash id ≡ false
    → instance_id_from_provider_id (build_provider_id id) ≡ ok id
unfolding instance_id_from_provider_id match_provider_id
instance_id_from_provider_id-build_provider_id [] some_id plain = absurd (some_id refl)
instance_id_from_provider_id-build_provider_id (c ∷ id) some_id plain =
    rw
      (
        with_scheme-build (c ∷ id),
        build_provider_id-eq (c ∷ id),
        strip_prefix-append scheme (c ∷ id),
      )
      (ground arith)

-- An ID that is read from a provider ID is not empty and has no slash; the provider ID is the one
-- that is built for it, up to the scheme that is put in front of a text without one.
pub instance_id_from_provider_id-eq-ok :
    (provider_id id : Str)
    → instance_id_from_provider_id provider_id ≡ ok id
    → ¬ (id ≡ []) × (has_slash id ≡ false) × (with_scheme provider_id ≡ scheme ++ id)
unfolding instance_id_from_provider_id match_provider_id
instance_id_from_provider_id-eq-ok provider_id id h =
    by_rest (strip_prefix scheme (with_scheme provider_id)) refl h
  where
    by_rest :
        (rest : Option Str)
        → strip_prefix scheme (with_scheme provider_id) ≡ rest
        → or_mismatch (instance_part rest) ≡ ok id
        → ¬ (id ≡ []) × (has_slash id ≡ false) × (with_scheme provider_id ≡ scheme ++ id)
    by_rest none e h = ground arith
    by_rest (some []) e h = ground arith
    by_rest (some (c ∷ s)) e h = elim (Bool-cases (has_slash (c ∷ s))) [
      | inl slash ↦ ground arith
      | inr plain ↦
          let same : c ∷ s ≡ id = ground arith in
          subst (λ i. ¬ (i ≡ []) × (has_slash i ≡ false) × (with_scheme provider_id ≡ scheme ++ i))
            same (λ e. cc, plain, strip_prefix-eq-some scheme (with_scheme provider_id) (c ∷ s) e)
    ]
