-- ===== src/Instances/ProviderId.antt =====
-- Provider IDs, "edgecenter:///<instance-id>": buildProviderID and instanceIDFromProviderID of
-- internal/edgecenter/instances.go. The regular expression `^edgecenter:///([^/]+)$` is the test
-- for the prefix and for a rest that is not empty and holds no slash.
pub mod RoundTrip
use edgecenter_ccm.Prelude.{
  Str, Option, none, some, Bool, [], ◌∷◌, ◌++◌, codes, contains, any, ◌==◌, nat_eq, str_eq,
  if◌then◌else◌, failure, Outcome, ok, err,
}

abbrev pub provider_name : Str
unfolding codes
provider_name = codes "edgecenter"

abbrev pub scheme : Str
unfolding codes
scheme = codes "edgecenter:///"

unfoldable pub build_provider_id : Str → Str
unfolding codes
build_provider_id instance_id = scheme ++ instance_id

unfoldable pub has_slash : Str → Bool
has_slash s = any (λ c. c == b'/') s

-- What is left of a text behind a prefix.
unfoldable pub strip_prefix : Str → Str → Option Str
strip_prefix [] s = some s
strip_prefix (d ∷ p) [] = none
strip_prefix (d ∷ p) (c ∷ s) = if c == d then strip_prefix p s else none

abbrev pub instance_part : Option Str → Option Str
instance_part none = none
instance_part (some []) = none
instance_part (some (c ∷ s)) = if has_slash (c ∷ s) then none else some (c ∷ s)

-- The submatch of the regular expression.
unfoldable pub match_provider_id : Str → Option Str
unfolding strip_prefix has_slash codes
match_provider_id s = instance_part (strip_prefix scheme s)

-- A text with no "://" gets the scheme put in front: kubernetes issue 85731.
unfoldable pub with_scheme : Str → Str
unfolding contains codes
with_scheme [] = []
with_scheme (c ∷ s) =
    if contains (c ∷ s) (codes "://") then c ∷ s else provider_name ++ (codes "://" ++ (c ∷ s))

abbrev pub or_mismatch : Option Str → Outcome Str
or_mismatch none =
    err (failure "ProviderID \"%s\" didn't match expected format \"edgecenter:///InstanceID\"")
or_mismatch (some id) = ok id

unfoldable pub instance_id_from_provider_id : Str → Outcome Str
unfolding match_provider_id with_scheme
instance_id_from_provider_id provider_id = or_mismatch (match_provider_id (with_scheme provider_id))
