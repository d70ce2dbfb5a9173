-- ===== src/Prelude/Maps.antt =====
-- A Go map from strings: an association list, newest binding first. No result of the code depends
-- on the order in which a map is walked, except where a definition says so.
use mathlib.Core.Path.{◌≡◌, refl}
use mathlib.Core.Bool.{Bool, true, false}
use mathlib.Core.Option.{Option, none, some}
use mathlib.Core.List.{List, [], ◌∷◌}
use native.Mathlib.Omega.{arith}
use package.edgecenter_ccm.Prelude.Tests.{if◌then◌else◌, ◌==◌}
use package.edgecenter_ccm.Prelude.Text.{Str, str_eq}

abbrev pub Dict : Type 0 → Type 0
Dict V = List (Str × V)

module _ {V : Type 0} where
  -- m[k], with `none` where the key is missing
  unfoldable pub lookup : Str → Dict V → Option V
  lookup k [] = none
  lookup k ((j, v) ∷ m) = if j == k then some v else lookup k m

  -- m[k] = v
  unfoldable pub insert : Str → V → Dict V → Dict V
  insert k v m = (k, v) ∷ m

  pub lookup-insert :
      (k j : Str) (v : V) (m : Dict V)
      → lookup j (insert k v m) ≡ (if k == j then some v else lookup j m)
  unfolding lookup insert
  lookup-insert k j v m = refl

  pub lookup-insert_self : (k : Str) (v : V) (m : Dict V) → lookup k (insert k v m) ≡ some v
  lookup-insert_self k v m = ground (arith, lookup-insert k k v m)

-- _, ok := m[k]
abbrev pub has : {V : Type 0} → Str → Dict V → Bool
has k m = elim (lookup k m) [ none ↦ false | some _ ↦ true ]
