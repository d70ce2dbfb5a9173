-- ===== src/Metadata/Search/Cache.antt =====
-- Get of internal/util/metadata/metadata.go against its contract: the first source of the order
-- that answers decides, and its answer is kept.
use edgecenter_ccm.Prelude.{
  ℕ, Str, nat_eq, Option, none, some, List, [], ◌∷◌, ◌↔◌, split, trim_space, ◌==◌, if◌then◌else◌,
  Err, Outcome, ok, err, panic, caught, continue, world, world-eq-ok, >>=-eq-ok, ◌≡◌, refl, ap, ◌∙◌,
  sym, subst, arith, str_eq,
}
use edgecenter_ccm.Cloud.Host.{Host, Metadata}
use edgecenter_ccm.Metadata.Search.{after_answer, get_from, search, keep, Cached, get}

module _ {State : Type 0} (host : Host State) where
  -- The sources of a list are asked in their order, until one answers.
  pub data Searched : List Str → State → Metadata → State → Type 0 where
    here :
        {id : Str} {ids : List Str} {s t : State} {md : Metadata}
        → get_from host (trim_space id) s ≡ (ok md, t)
        → Searched (id ∷ ids) s md t
    later :
        {id : Str} {ids : List Str} {s t u : State} {md : Metadata} {e : Err}
        → get_from host (trim_space id) s ≡ (err e, t)
        → Searched ids t md u
        → Searched (id ∷ ids) s md u

  search-Searched :
      (ids : List Str) (e x : Option Err) (s t : State) (md : Metadata)
      → search host ids (none, e) s ≡ (ok (some md, x), t)
      → Searched ids s md t × (x ≡ none)
  unfolding search
  search-Searched [] e x s t md h = ground arith
  search-Searched (id ∷ ids) e x s t md h =
      by_outcome (λ d u. search-Searched ids (some d) x u t md) (get_from host (trim_space id) s)
        refl h
    where
      by_outcome :
          ((d : Err) (u : State)
            → search host ids (none, some d) u ≡ (ok (some md, x), t)
            → Searched ids u md t × (x ≡ none))
          → (y : Outcome Metadata × State) → get_from host (trim_space id) s ≡ y
          → continue (caught y.0) (after_answer host (search host ids)) y.1 ≡ (ok (some md, x), t)
          → Searched (id ∷ ids) s md t × (x ≡ none)
      by_outcome again (ok m, u) q h =
          let same : ◌≡◌ {A = Outcome Metadata × State} (ok m, u) (ok md, t) = ground arith in
          (here (q ∙ same), ground arith)
      by_outcome again (err d, u) q h = let (found, clear) = again d u h in (later q found, clear)
      by_outcome again (panic, u) q h = ground arith

  Searched-search :
      {ids : List Str} {s t : State} {md : Metadata}
      → Searched ids s md t
      → (e : Option Err) → search host ids (none, e) s ≡ (ok (some md, none), t)
  unfolding search
  Searched-search (here h) e = rw h refl
  Searched-search (later {e = d} h found) e = rw h (Searched-search found (some d))

  -- A list with an element gives metadata or an error.
  search-decides :
      (ids : List Str) (e x : Option Err) (s t : State) (m : Option Metadata)
      → search host ids (none, e) s ≡ (ok (m, x), t)
      → (m ≡ none)
      → (x ≡ none)
      → (ids ≡ []) × (e ≡ none)
  unfolding search
  search-decides [] e x s t m h p q = (refl, ground arith)
  search-decides (id ∷ ids) e x s t m h p q =
      by_outcome (λ d u h. search-decides ids (some d) x u t m h p q)
        (get_from host (trim_space id) s) h
    where
      by_outcome :
          ((d : Err) (u : State)
            → search host ids (none, some d) u ≡ (ok (m, x), t)
            → (ids ≡ []) × (◌≡◌ {A = Option Err} (some d) none))
          → (y : Outcome Metadata × State)
          → continue (caught y.0) (after_answer host (search host ids)) y.1 ≡ (ok (m, x), t)
          → (id ∷ ids ≡ []) × (e ≡ none)
      by_outcome again (ok m, u) h = ground arith
      by_outcome again (err d, u) h = let (_, wrong) = again d u h in ground arith
      by_outcome again (panic, u) h = ground arith

  pub split-nonempty : (sep : ℕ) (order : Str) → ¬ (split sep order ≡ [])
  unfolding split
  split-nonempty sep [] h = ground arith
  split-nonempty sep (c ∷ order) h = by_parts (split sep order) (split-nonempty sep order) h
    where
      by_parts :
          (parts : List Str)
          → ¬ (parts ≡ [])
          → ¬ (
              (elim parts [
                | [] ↦ []
                | part ∷ rest ↦ if c == sep then [] ∷ part ∷ rest else (c ∷ part) ∷ rest
              ])
              ≡ [])
      by_parts [] some_part h = some_part refl
      by_parts (part ∷ rest) some_part h = ground arith

  -- With an empty cache Get returns the metadata of the first source of the order that answers, and
  -- the cache holds what was returned.
  pub get-Searched_iff :
      (order : Str) (s t : State) (m cache : Option Metadata)
      → (get host order (none, s) ≡ (ok m, (cache, t)))
        ↔ ((md : Metadata) × (m ≡ some md) × (cache ≡ some md) × Searched (split b',' order) s md t)
  unfolding get keep
  get-Searched_iff order s t m cache = (forth, back)
    where
      kept :
          (r : Option Metadata × Option Err) (u : State)
          → search host (split b',' order) (none, none) s ≡ (ok r, u)
          → keep host r (none, u) ≡ (ok m, (cache, t))
          → (md : Metadata) × (m ≡ some md) × (cache ≡ some md) × Searched (split b',' order) s md t
      kept (md, some e) u q h = ground arith
      kept (none, none) u q h = absurd (
          split-nonempty b',' order
            (search-decides (split b',' order) none none s u none q refl refl).0)
      kept (some md, none) u q h =
          let same : u ≡ t = ground arith in
          (
            md,
            ground arith,
            ground arith,
            subst (Searched (split b',' order) s md) same
                (search-Searched (split b',' order) none none s u md q).0,
          )

      forth :
          get host order (none, s) ≡ (ok m, (cache, t))
          → (md : Metadata) × (m ≡ some md) × (cache ≡ some md) × Searched (split b',' order) s md t
      forth h =
          let run = search host (split b',' order) (none, none) in
          let (r, (c, u), q, h1) = >>=-eq-ok (world run) (keep host) (none, s) h in
          let clean : c ≡ none =
            ap (λ (z : Outcome (Option Metadata × Option Err) × (Cached host × State)). z.1.0)
              (sym q) in
          kept r u (world-eq-ok run (none, s) (c, u) q)
            (subst (λ (k : Option Metadata). keep host r (k, u) ≡ (ok m, (cache, t))) clean h1)

      back :
          ((md : Metadata) × (m ≡ some md) × (cache ≡ some md) × Searched (split b',' order) s md t)
          → get host order (none, s) ≡ (ok m, (cache, t))
      back (md, is_md, kept_md, found) = rw (Searched-search found none) (rw (is_md, kept_md) refl)

  get-cached :
      (order : Str) (md : Metadata) (m kept : Option Metadata) (t : State)
      → m ≡ some md
      → kept ≡ some md
      → get host order (kept, t) ≡ (ok m, (kept, t))
  unfolding get
  get-cached order md m kept t p q =
      subst (λ (k : Option Metadata). get host order (k, t) ≡ (ok m, (k, t))) (sym q)
        (ap (λ (k : Option Metadata). (ok k, (some md, t))) (sym p))

  -- Once Get has returned metadata, every later Get returns the same and leaves the cache and
  -- the state as they are, whatever its search order is.
  pub get-Final :
      (order again : Str) (cache : Option Metadata) (s t : State) (m kept : Option Metadata)
      → get host order (cache, s) ≡ (ok m, (kept, t))
      → get host again (kept, t) ≡ (ok m, (kept, t))
  unfolding get
  get-Final order again (some md) s t m kept h =
      let (same_kept, same) : (some md ≡ kept)
          × (◌≡◌ {A = Outcome (Option Metadata)} (ok (some md)) (ok m)) =
        (
          ap (λ (z : Outcome (Option Metadata) × (Option Metadata × State)). z.1.0) h,
          ap (λ (z : Outcome (Option Metadata) × (Option Metadata × State)). z.0) h,
        ) in
      get-cached again md m kept t (ground arith) (sym same_kept)
  get-Final order again none s t m kept h =
      let (md, is_md, is_kept, _) = (get-Searched_iff order s t m kept).0 h in
      get-cached again md m kept t is_md is_kept
