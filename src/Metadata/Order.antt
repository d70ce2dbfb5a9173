-- ===== src/Metadata/Order.antt =====
-- CheckMetadataSearchOrder of internal/util/metadata/metadata.go, which stands a second time in
-- internal/edgecenter/edgecenter.go (checkMetadataSearchOrder).
pub mod Valid
use edgecenter_ccm.Prelude.{
  Str, Bool, true, false, List, [], ◌∷◌, ltb, length, split, trim_space, ◌==◌, ◌||◌, str_eq,
  if◌then◌else◌, failure, Outcome, ok, err,
}
use edgecenter_ccm.Metadata.Search.{config_drive_id, metadata_id}

abbrev pub is_supported : Str → Bool
is_supported id = id == config_drive_id || id == metadata_id

unfoldable pub check_elements : List Str → Outcome (Unit {0})
check_elements [] = ok tt
check_elements (id ∷ ids) =
    if is_supported (trim_space id)
    then check_elements ids
    else err (
        failure
          "invalid element %q found in section [Metadata] with key `search-order`.Supported elements include %q and %q")

unfoldable pub check_metadata_search_order : Str → Outcome (Unit {0})
unfolding check_elements
check_metadata_search_order [] =
    err
      (failure "invalid value in section [Metadata] with key `search-order`. Value cannot be empty")
check_metadata_search_order (c ∷ order) =
    if ltb 2 (length (split b',' (c ∷ order)))
    then err (
        failure
          "invalid value in section [Metadata] with key `search-order`. Value cannot contain more than 2 elements")
    else check_elements (split b',' (c ∷ order))
