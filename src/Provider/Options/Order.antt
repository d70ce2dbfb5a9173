-- ===== src/Provider/Options/Order.antt =====
-- The two checks of the search order, of edgecenter.go and metadata.go, are the same.
use edgecenter_ccm.Prelude.{
  Str, Bool, List, [], ◌∷◌, if◌then◌else◌, Err, Outcome, err, split, ◌≡◌, refl,
}
use edgecenter_ccm.Metadata.Order.{check_elements, check_metadata_search_order}
use edgecenter_ccm.Provider.Options.{check_order_elements, check_config_search_order}

abbrev chosen : Bool → Err → Outcome (Unit {0}) → Outcome (Unit {0})
chosen b e rest = if b then rest else err e

check_order_elements-check_elements :
    (ids : List Str) → check_order_elements ids ≡ check_elements ids
unfolding check_order_elements check_elements
check_order_elements-check_elements [] = refl
check_order_elements-check_elements (id ∷ ids) = rw (check_order_elements-check_elements ids) refl

pub check_config_search_order-check_metadata_search_order :
    (order : Str) → check_config_search_order order ≡ check_metadata_search_order order
unfolding check_config_search_order check_metadata_search_order
check_config_search_order-check_metadata_search_order [] = refl
check_config_search_order-check_metadata_search_order (c ∷ order) =
    rw (check_order_elements-check_elements (split b',' (c ∷ order))) refl
