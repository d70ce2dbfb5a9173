-- ===== src/Metadata/Search/Unsupported.antt =====
-- Get of internal/util/metadata/metadata.go on an order that names no source.
use edgecenter_ccm.Prelude.{
  Str, nat_eq, none, some, List, [], ◌∷◌, split, trim_space, Err, ok, err, ◌≡◌, refl, ==_of_neq,
  All, ◌≢◌, failure, str_eq,
}
use edgecenter_ccm.Cloud.Host.{Host}
use edgecenter_ccm.Metadata.Search.{get_from, search, keep, get, config_drive_id, metadata_id}
use edgecenter_ccm.Metadata.Search.Cache.{split-nonempty}

module _ {State : Type 0} (host : Host State) where
  abbrev pub Unsupported : Str → Type 0
  Unsupported id = (trim_space id ≢ config_drive_id) × (trim_space id ≢ metadata_id)

  search-Unsupported :
      (ids : List Str) (e : Err) (s : State)
      → All Unsupported ids
      → (d : Err) × (search host ids (none, some e) s ≡ (ok (none, some d), s))
  unfolding search get_from
  search-Unsupported [] e s all = (e, refl)
  search-Unsupported (id ∷ ids) e s ((no_drive, no_service), all) =
      let text =
        failure "%s is not a valid metadata search order option. Supported options are %s and %s" in
      let (d, rest) = search-Unsupported ids text s all in
      (d, rw (==_of_neq no_drive, ==_of_neq no_service) rest)

  -- Where no element of the order is the name of a source, Get gives an error and asks nothing.
  pub get-Unsupported :
      (order : Str) (s : State)
      → All Unsupported (split b',' order)
      → (e : Err) × (get host order (none, s) ≡ (err e, (none, s)))
  unfolding get keep search get_from
  get-Unsupported order s all = by_parts (split b',' order) refl all
    where
      by_parts :
          (ids : List Str)
          → split b',' order ≡ ids
          → All Unsupported ids
          → (e : Err) × (get host order (none, s) ≡ (err e, (none, s)))
      by_parts [] q all = absurd (split-nonempty host b',' order q)
      by_parts (id ∷ ids) q ((no_drive, no_service), all) =
          let text =
            failure
              "%s is not a valid metadata search order option. Supported options are %s and %s" in
          let (d, rest) = search-Unsupported ids text s all in
          (d, rw (q, ==_of_neq no_drive, ==_of_neq no_service, rest) refl)
