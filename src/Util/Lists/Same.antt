-- ===== src/Util/Lists/Same.antt =====
-- When StringListEqual of internal/util/util.go takes two lists for equal.
use mathlib.Core.List.{Nodup, Perm}
use mathlib.Core.List.Perm
use edgecenter_ccm.Prelude.{
  ℕ, Str, Bool, true, false, not, ◌&&◌, List, [], ◌∷◌, length, ◌==◌, nat_eq, ◌⊎◌, inl, inr, str_eq,
  if◌then◌else◌, lacks, lacks_of_Subset, perm_of_lacks, length_of_Perm, ◌≡◌, ◌↔◌, arith, refl, sym,
}
use edgecenter_ccm.Util.Lists.{string_list_equal}

-- sets.String: two sets are equal where each has the elements of the other.
abbrev pub IsSameSet : (List Str → List Str → Bool) → Type 0
IsSameSet same_set =
    (xs ys : List Str) → (same_set xs ys ≡ true) ↔ ((lacks xs ys ≡ false) × (lacks ys xs ≡ false))

tests-eq-true_iff :
    (m n : ℕ) (b : Bool)
    → ((if m == 0 && n == 0 then true else if not (m == n) then false else b) ≡ true)
      ↔ (((m ≡ 0) × (n ≡ 0)) ⊎ ((m ≡ n) × (b ≡ true)))
tests-eq-true_iff m n true = (λ h. ground arith, λ h. ground arith)
tests-eq-true_iff m n false = (λ h. ground arith, λ h. ground arith)

no_elements : (xs : List Str) → length xs ≡ 0 → xs ≡ []
no_elements [] h = refl
no_elements (x ∷ xs) h = ground arith

-- StringListEqual answers true on two lists, the second with no element twice, exactly when one is a
-- permutation of the other.
pub string_list_equal-Perm_iff :
    (same_set : List Str → List Str → Bool)
    → IsSameSet same_set
    → (xs ys : List Str) → Nodup ys
    → (string_list_equal same_set xs ys ≡ true) ↔ Perm ys xs
unfolding string_list_equal
string_list_equal-Perm_iff same_set is_same xs ys once =
    let tests = tests-eq-true_iff (length xs) (length ys) (same_set xs ys) in
    (
      λ h. elim (tests.0 h) [
        | inl (none_left, none_right) ↦
            rw (no_elements xs none_left, no_elements ys none_right) (Perm.refl [])
        | inr (same, sets) ↦ perm_of_lacks xs ys once same ((is_same xs ys).0 sets).0
      ],
      λ p. tests.1 (
          inr (
            sym (length_of_Perm p),
            (is_same xs ys).1 (
              lacks_of_Subset xs ys (Perm.subset p),
              lacks_of_Subset ys xs (Perm.subset (Perm.symm p)),
            ),
          )),
    )
