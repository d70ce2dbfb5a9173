-- ===== src/Util/Lists.antt =====
-- internal/util/util.go: lists of texts. sets.String of apimachinery is a parameter: the test whether
-- two lists have the same elements.
pub mod Same
use edgecenter_ccm.Prelude.{
  ℕ, Str, Bool, true, false, not, ◌&&◌, List, [], ◌∷◌, any, length, ◌==◌, nat_eq, str_eq,
  if◌then◌else◌,
}

unfoldable pub string_list_equal : (List Str → List Str → Bool) → List Str → List Str → Bool
string_list_equal same_set list1 list2 =
    if length list1 == 0 && length list2 == 0
    then true
    else if not (length list1 == length list2)
    then false
    else same_set list1 list2

-- Contains
unfoldable pub contains_string : List Str → Str → Bool
contains_string list str_to_search = any (λ item. item == str_to_search) list
