-- ===== src/Provider/Config/Defaults.antt =====
-- What ReadConfig of internal/edgecenter/edgecenter.go leaves in the configuration.
use edgecenter_ccm.Prelude.{
  Str, Option, none, some, [], ◌∷◌, ℤ, pos, ◌==◌, str_eq, int_eq, nat_eq, str_dec, codes, ◌⊎◌,
  split, trim_space, Outcome, ok, err, panic, ◌≡◌, ◌≢◌, inl, inr, subst, refl, arith, ok_injective,
  Bool-cases,
}
use edgecenter_ccm.Metadata.Order.{check_metadata_search_order, check_elements}
use edgecenter_ccm.Provider.Config.{
  ProviderConfig, read_config, with_defaults, defaults_of, with_default_order, with_default_timeout,
  default_search_order,
}

default_search_order-eq-ok : check_metadata_search_order default_search_order ≡ ok tt
unfolding check_metadata_search_order codes str_eq nat_eq split trim_space check_elements
default_search_order-eq-ok = refl

-- What the file left out is filled in, and the classes stand in the section of load balancers.
abbrev pub CompletedFrom : ProviderConfig → ProviderConfig → Type 0
CompletedFrom raw cfg =
    (cfg.metadata.search_order ≢ [])
    × (cfg.metadata.request_timeout ≢ pos 0)
    × (cfg.load_balancer.lb_classes ≡ cfg.load_balancer_class)
    × (((raw.metadata.search_order ≡ [])
          × (check_metadata_search_order cfg.metadata.search_order ≡ ok tt))
        ⊎ (cfg.metadata.search_order ≡ raw.metadata.search_order))

with_default_order-nonempty : (order : Str) → with_default_order order ≢ []
unfolding codes str_eq str_dec
with_default_order-nonempty [] h = ground arith
with_default_order-nonempty (c ∷ order) h = ground arith

with_default_timeout-nonzero : (t : ℤ) → with_default_timeout t ≢ pos 0
with_default_timeout-nonzero t h = elim (Bool-cases (t == pos 0)) [
  | inl e ↦ ground arith
  | inr e ↦ ground arith
]

completed_order :
    (order : Str)
    → ((order ≡ []) × (check_metadata_search_order (with_default_order order) ≡ ok tt))
      ⊎ (with_default_order order ≡ order)
unfolding str_eq str_dec
completed_order [] = inl (refl, default_search_order-eq-ok)
completed_order (c ∷ order) = inr refl

with_defaults-CompletedFrom : (raw : ProviderConfig) → CompletedFrom raw (with_defaults raw)
unfolding with_defaults str_eq
with_defaults-CompletedFrom raw = (
  with_default_order-nonempty raw.metadata.search_order,
  with_default_timeout-nonzero raw.metadata.request_timeout,
  refl,
  completed_order raw.metadata.search_order,
)

-- ReadConfig succeeds only on a text that is read, and then the search order and the timeout
-- are set, and the classes stand in the section of load balancers: an order that the file left
-- out is a valid one, and any other is kept.
pub read_config-CompletedFrom :
    (parse : Str → Outcome ProviderConfig) (reader : Option Str) (cfg : ProviderConfig)
    → read_config parse reader ≡ ok cfg
    → (text : Str) × (raw : ProviderConfig) × (reader ≡ some text)
      × (parse text ≡ ok raw)
      × CompletedFrom raw cfg
unfolding read_config defaults_of
read_config-CompletedFrom parse none cfg h = ground arith
read_config-CompletedFrom parse (some text) cfg h = by_parse (parse text) refl h
  where
    by_parse :
        (r : Outcome ProviderConfig)
        → parse text ≡ r
        → defaults_of r ≡ ok cfg
        → (t : Str) × (raw : ProviderConfig) × (some text ≡ some t)
          × (parse t ≡ ok raw)
          × CompletedFrom raw cfg
    by_parse (ok raw) q h = (
      text,
      raw,
      refl,
      q,
      subst (CompletedFrom raw) (ok_injective h) (with_defaults-CompletedFrom raw),
    )
    by_parse (err e) q h = ground arith
    by_parse panic q h = ground arith
