-- ===== src/Metadata/Search.antt =====
-- internal/util/metadata/metadata.go: Get, with the search order and the cache of the process.
pub mod Cache
pub mod Unsupported
use edgecenter_ccm.Prelude.{
  Str, Option, none, some, Bool, true, false, List, [], ◌∷◌, ◌⊎◌, inl, inr, codes, split,
  trim_space, ◌==◌, str_eq, if◌then◌else◌, Err, failure, Exec, Outcome, ok, err, panic, pure, fail,
  deref, attempt, world, assign, ◌>>=◌, ◌>>◌,
}
use edgecenter_ccm.Cloud.Host.{Host, Metadata}
use edgecenter_ccm.Metadata.Sources.{
  get_from_config_drive, get_from_metadata_service, default_metadata_version,
}

abbrev pub config_drive_id : Str
config_drive_id = codes "configDrive"

abbrev pub metadata_id : Str
metadata_id = codes "metadataService"

module _ {State : Type 0} (host : Host State) where
  -- The switch on one element of the order.
  unfoldable pub get_from : Str → Exec State Metadata
  get_from id =
      if id == config_drive_id
      then get_from_config_drive host default_metadata_version
      else if id == metadata_id
      then get_from_metadata_service host default_metadata_version
      else fail (
          failure "%s is not a valid metadata search order option. Supported options are %s and %s")

  -- What an answer leaves in `md` and `err`; after an error the loop goes on.
  abbrev pub after_answer :
      (Option Metadata × Option Err → Exec State (Option Metadata × Option Err))
      → Err ⊎ Metadata
      → Exec State (Option Metadata × Option Err)
  after_answer rest (inl e) = rest (none, some e)
  after_answer rest (inr md) = pure (some md, none)

  -- The loop, which ends at the first element that gives no error: `md` and `err` after it.
  unfoldable pub search :
      List Str → Option Metadata × Option Err → Exec State (Option Metadata × Option Err)
  search [] found = pure found
  search (id ∷ ids) found = do
    got ← attempt (get_from (trim_space id))
    after_answer (search ids) got

  abbrev pub Cached : Type 0
  Cached = Option Metadata

  -- `metadataCache = md`, unless there is an error
  unfoldable pub keep : Option Metadata × Option Err → Exec (Cached × State) (Option Metadata)
  keep (md, some e) = fail e
  keep (md, none) = do assign md; pure md

  -- Get: the pointer that it returns
  unfoldable pub get : Str → Exec (Cached × State) (Option Metadata)
  unfolding keep
  get order (some md, s) = (ok (some md), (some md, s))
  get order (none, s) =
      (do found ← world (search (split b',' order) (none, none)); keep found) (none, s)

  -- GetInstanceID and GetAvailabilityZone
  unfoldable pub get_instance_id : Str → Exec (Cached × State) Str
  get_instance_id order = do md ← get order; m ← deref md; pure m.uuid

  unfoldable pub get_availability_zone : Str → Exec (Cached × State) Str
  get_availability_zone order = do md ← get order; m ← deref md; pure m.availability_zone

-- Set and Clear
unfoldable pub set : {State : Type 0} → Option Metadata → Exec (Option Metadata × State) (Unit {0})
set value = assign value

unfoldable pub clear : {State : Type 0} → Exec (Option Metadata × State) (Unit {0})
clear = assign none

-- GetMetadataProvider: the provider, by its search order; the first one is kept for the process.
unfoldable pub get_metadata_provider : {State : Type 0} → Str → Exec (Option Str × State) Str
get_metadata_provider order (some kept, s) = (ok kept, (some kept, s))
get_metadata_provider order (none, s) = (ok order, (some order, s))
