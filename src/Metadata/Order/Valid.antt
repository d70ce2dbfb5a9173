-- ===== src/Metadata/Order/Valid.antt =====
-- The search orders that CheckMetadataSearchOrder lets through, and what Get does with them.
use edgecenter_ccm.Prelude.{
  ℕ, Str, Option, none, some, Bool, true, false, List, [], ◌∷◌, ◌⊎◌, inl, inr, ◌↔◌, ltb, length,
  ◌≤◌, split, trim_space, ◌==◌, ◌||◌, if◌then◌else◌, Err, failure, Outcome, ok, err, panic, attempt,
  caught, continue, world, ◌≡◌, refl, ap, ◌∙◌, sym, subst, arith, All, str_eq, nat_eq, if-cases,
  >>=-eq-err, world-Keeps, NeverErrs, pure-NeverErrs, attempt-NeverErrs, >>=-NeverErrs, Bool-cases,
}
use edgecenter_ccm.Cloud.Host.{Host, Metadata}
use edgecenter_ccm.Metadata.Sources.{
  get_from_config_drive, get_from_metadata_service, default_metadata_version,
}
use edgecenter_ccm.Metadata.Search.{
  after_answer, get_from, search, keep, get, config_drive_id, metadata_id,
}
use edgecenter_ccm.Metadata.Order.{is_supported, check_elements, check_metadata_search_order}

abbrev pub IsSupported : Str → Type 0
IsSupported id = is_supported (trim_space id) ≡ true

check_elements-eq-ok_iff : (ids : List Str) → (check_elements ids ≡ ok tt) ↔ All IsSupported ids
unfolding check_elements
check_elements-eq-ok_iff [] = (λ e. tt, λ a. refl)
check_elements-eq-ok_iff (id ∷ ids) =
    by_first (is_supported (trim_space id)) (check_elements ids) (check_elements-eq-ok_iff ids)
  where
    by_first :
        (b : Bool) (rest : Outcome (Unit {0}))
        → (rest ≡ ok tt) ↔ All IsSupported ids
        → ((if b
              then rest
              else err (
                  failure
                    "invalid element %q found in section [Metadata] with key `search-order`.Supported elements include %q and %q"))
            ≡ ok tt)
          ↔ ((b ≡ true) × All IsSupported ids)
    by_first true rest ih = (λ e. (refl, ih.0 e), λ a. ih.1 a.1)
    by_first false rest ih = (λ e. ground arith, λ a. ground arith)

-- A text of at most two elements, each the name of a source
abbrev pub IsValid : Str → Type 0
IsValid order =
    ¬ (order ≡ []) × (length (split b',' order) ≤ 2) × All IsSupported (split b',' order)

-- CheckMetadataSearchOrder returns no error exactly on a text that is not empty and has, between its
-- commas, at most two elements, each of them the name of a source with white space around it.
pub check_metadata_search_order-IsValid_iff :
    (order : Str) → (check_metadata_search_order order ≡ ok tt) ↔ IsValid order
unfolding check_metadata_search_order
check_metadata_search_order-IsValid_iff [] = (λ e. ground arith, λ v. absurd (v.0 refl))
check_metadata_search_order-IsValid_iff (c ∷ order) =
    by_length (length (split b',' (c ∷ order))) (check_elements (split b',' (c ∷ order)))
      (check_elements-eq-ok_iff (split b',' (c ∷ order)))
  where
    by_length :
        (n : ℕ) (rest : Outcome (Unit {0}))
        → (rest ≡ ok tt) ↔ All IsSupported (split b',' (c ∷ order))
        → ((if ltb 2 n
              then err (
                  failure
                    "invalid value in section [Metadata] with key `search-order`. Value cannot contain more than 2 elements")
              else rest)
            ≡ ok tt)
          ↔ (¬ (c ∷ order ≡ []) × (n ≤ 2) × All IsSupported (split b',' (c ∷ order)))
    by_length n rest ih = elim (Bool-cases (ltb 2 n)) [
      | inl long ↦ rw long (λ e. ground arith, λ v. ground arith)
      | inr short ↦ rw short (λ e. (λ p. ground arith, ground arith, ih.0 e), λ v. ih.1 v.2)
    ]

module _ {State : Type 0} (host : Host State) where
  -- The error is one of the config drive or of the metadata service.
  abbrev pub FromSource : Err → State → Type 0
  FromSource e t =
      (u : State) × ((get_from_config_drive host default_metadata_version u ≡ (err e, t))
        ⊎ (get_from_metadata_service host default_metadata_version u ≡ (err e, t)))

  get_from-FromSource :
      (id : Str) (e : Err) (u t : State)
      → is_supported id ≡ true
      → get_from host id u ≡ (err e, t)
      → FromSource e t
  unfolding get_from
  get_from-FromSource id e u t supported h = elim (if-cases (id == config_drive_id) _ _ u h) [
    | inl (_, h1) ↦ (u, inl h1)
    | inr (not_drive, h1) ↦ elim (if-cases (id == metadata_id) _ _ u h1) [
      | inl (_, h2) ↦ (u, inr h2)
      | inr (not_service, h2) ↦ absurd (neither supported not_drive not_service)
    ]
  ]
    where
      neither : {b c : Bool} → (b || c) ≡ true → b ≡ false → c ≡ false → ⊥
      neither {b} {c} h p q = ground arith

  search-FromSource :
      (ids : List Str) (before : Option Err) (e : Err) (m : Option Metadata) (s t : State)
      → All IsSupported ids
      → ((d : Err) → before ≡ some d → FromSource d s)
      → search host ids (none, before) s ≡ (ok (m, some e), t)
      → FromSource e t
  unfolding search
  search-FromSource [] before e m s t all known h =
      subst (FromSource e) (ap (λ (x : Outcome (Option Metadata × Option Err) × State). x.1) h)
        (known e (ground arith))
  search-FromSource (id ∷ ids) before e m s t (first, all) known h =
      by_outcome (λ d u. search-FromSource ids (some d) e m u t all)
        (get_from host (trim_space id) s) refl h
    where
      by_outcome :
          ((d : Err) (u : State)
            → ((x : Err) → ◌≡◌ {A = Option Err} (some d) (some x) → FromSource x u)
            → search host ids (none, some d) u ≡ (ok (m, some e), t)
            → FromSource e t)
          → (y : Outcome Metadata × State) → get_from host (trim_space id) s ≡ y
          → continue (caught y.0) (after_answer host (search host ids)) y.1 ≡ (ok (m, some e), t)
          → FromSource e t
      by_outcome again (ok m, u) q h = ground arith
      by_outcome again (err d, u) q h =
          again d u
            (λ x same.
              let equal : d ≡ x = ground arith in
              get_from-FromSource (trim_space id) x s u first
                (q ∙ ap (λ (w : Err). (err w, u)) equal))
            h
      by_outcome again (panic, u) q h = ground arith

  search-NeverErrs :
      (ids : List Str) (found : Option Metadata × Option Err) → NeverErrs (search host ids found)
  unfolding search
  search-NeverErrs [] found = pure-NeverErrs found
  search-NeverErrs (id ∷ ids) found =
      >>=-NeverErrs (attempt (get_from host (trim_space id))) _ (attempt-NeverErrs _)
        (λ got. by_answer got (λ e. search-NeverErrs ids (none, some e)))
    where
      by_answer :
          (got : Err ⊎ Metadata)
          → ((e : Err) → NeverErrs (search host ids (none, some e)))
          → NeverErrs (after_answer host (search host ids) got)
      by_answer (inl e) again = again e
      by_answer (inr m) again = pure-NeverErrs (some m, none)

  keep-FromSource :
      (order : Str) (r : Option Metadata × Option Err) (e : Err) (cache : Option Metadata)
      (s t u : State)
      → All IsSupported (split b',' order)
      → search host (split b',' order) (none, none) s ≡ (ok r, u)
      → keep host r (none, u) ≡ (err e, (cache, t))
      → (cache ≡ none) × FromSource e t
  unfolding keep
  keep-FromSource order (md, none) e cache s t u all q h = ground arith
  keep-FromSource order (md, some d) e cache s t u all q h =
      let same : d ≡ e = ground arith in
      let end : u ≡ t = ground arith in
      (
        ground arith,
        search-FromSource (split b',' order) none e md s t all (λ x p. ground arith)
            (q ∙ ap (λ (z : Err × State). (ok (md, some z.0), z.1)) (ground arith)),
      )

  -- With a search order that the check let through and an empty cache, an error of Get is the error
  -- of the config drive or of the metadata service that was asked last, and the cache stays empty.
  pub get-FromSource :
      (order : Str) (e : Err) (cache : Option Metadata) (s t : State)
      → check_metadata_search_order order ≡ ok tt
      → get host order (none, s) ≡ (err e, (cache, t))
      → (cache ≡ none) × FromSource e t
  unfolding get
  get-FromSource order e cache s t valid h =
      let supported = ((check_metadata_search_order-IsValid_iff order).0 valid).2 in
      let run = search host (split b',' order) (none, none) in
      elim (>>=-eq-err (world run) (keep host) (none, s) h) [
        | inl failed ↦ absurd (
            search-NeverErrs (split b',' order) (none, none) s t e
              (world-Keeps run (none, s) (cache, t) failed).1)
        | inr (r, (c, u), q, h1) ↦
            let (clean, ran) = world-Keeps run (none, s) (c, u) q in
            keep-FromSource order r e cache s t u supported ran (
              subst (λ (k : Option Metadata). keep host r (k, u) ≡ (err e, (cache, t))) (sym clean)
                h1)
      ]
