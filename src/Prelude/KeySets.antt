-- ===== src/Prelude/KeySets.antt =====
-- Lists of keys compared as sets: by their lengths and by membership.
use mathlib.Core.List
use mathlib.Core.List.{Mem, Subset, Nodup, Perm, Mem-prop, mem-cons, mem-cons_self, not-mem-nil}
use mathlib.Core.List.Perm
use mathlib.Core.List.Subperm
use mathlib.Core.List.Nodup
use mathlib.Core.Logic.Or
use native.Mathlib.Bridge.{from_ℕ}
use mathlib.Core.Bool.{Bool-set, Bool, true, false, not}
use mathlib.Core.Path.{◌≡◌, refl, ap, sym, ◌∙◌}
use mathlib.Core.Logic.{inl, inr}
use mathlib.Core.List.{List, [], ◌∷◌}
use Prim.Native.Nat.{ℕ, zero, suc}
use native.Mathlib.Omega.{arith}
use package.edgecenter_ccm.Prelude.Tests.{◌==◌, Bool-cases}
use package.edgecenter_ccm.Prelude.Text.{Str, str_eq}
use package.edgecenter_ccm.Prelude.Lists.{length, any}

in_set_of_Mem : (ks : List Str) (k : Str) → Mem k ks → any (λ j. j == k) ks ≡ true
in_set_of_Mem [] k m = absurd (not-mem-nil m)
in_set_of_Mem (j ∷ ks) k m =
    Or.elim (Bool-set _ _) (mem-cons.0 m) (λ e. ground arith)
      (λ n. ground (arith, in_set_of_Mem ks k n))

Mem_of_in_set : (ks : List Str) (k : Str) → any (λ j. j == k) ks ≡ true → Mem k ks
Mem_of_in_set [] k h = cc
Mem_of_in_set (j ∷ ks) k h = elim (Bool-cases (j == k)) [
  | inl e ↦ mem-cons.1 (Or.inl (ground arith))
  | inr e ↦ mem-cons.1 (Or.inr (Mem_of_in_set ks k (ground arith)))
]

-- The library counts a list by its unary numbers.
pub length_unary {ℓ} : {A : Type ℓ} (xs : List A) → length xs ≡ from_ℕ (List.length xs)
length_unary [] = refl
length_unary (x ∷ xs) = ap suc (length_unary xs)

abbrev unary : ℕ → mathlib.Core.Nat.ℕ
unary zero = mathlib.Core.Nat.ℕ.zero
unary (suc n) = mathlib.Core.Nat.ℕ.suc (unary n)

unary-length {ℓ} : {A : Type ℓ} (xs : List A) → unary (length xs) ≡ List.length xs
unary-length [] = refl
unary-length (x ∷ xs) = ap mathlib.Core.Nat.ℕ.suc (unary-length xs)

-- Whether a wanted key is missing from the present ones.
abbrev pub lacks : List Str → List Str → Bool
lacks keys wanted = any (λ k. not (any (λ j. j == k) keys)) wanted

pub Subset_of_lacks : (keys wanted : List Str) → lacks keys wanted ≡ false → Subset wanted keys
Subset_of_lacks keys [] h k m = absurd (not-mem-nil m)
Subset_of_lacks keys (w ∷ wanted) h k m =
    Or.elim Mem-prop (mem-cons.0 m) (λ e. rw e (Mem_of_in_set keys w (ground arith)))
      (λ n. Subset_of_lacks keys wanted (ground arith) k n)

pub lacks_of_Subset : (keys wanted : List Str) → Subset wanted keys → lacks keys wanted ≡ false
lacks_of_Subset keys [] h = refl
lacks_of_Subset keys (w ∷ wanted) h =
    rw (in_set_of_Mem keys w (h w mem-cons_self))
      (lacks_of_Subset keys wanted (λ k m. h k (mem-cons.1 (Or.inr m))))

-- As many distinct wanted elements as present ones, all present: the two are the same elements.
pub perm_of_Subset {ℓ} :
    {A : Type ℓ} (present wanted : List A)
    → Nodup wanted
    → length present ≡ length wanted
    → Subset wanted present
    → Perm wanted present
perm_of_Subset present wanted distinct same h =
    Subperm.perm_of_length_le (Nodup.subperm distinct h)
      (mathlib.Core.Nat.le_of_eq (sym (unary-length present) ∙ ap unary same ∙ unary-length wanted))

pub perm_of_lacks :
    (keys wanted : List Str)
    → Nodup wanted
    → length keys ≡ length wanted
    → lacks keys wanted ≡ false
    → Perm wanted keys
perm_of_lacks keys wanted distinct same h =
    perm_of_Subset keys wanted distinct same (Subset_of_lacks keys wanted h)

pub length_of_Perm {ℓ} : {A : Type ℓ} {xs ys : List A} → Perm xs ys → length xs ≡ length ys
length_of_Perm p = length_unary _ ∙ ap from_ℕ (Perm.length-eq p) ∙ sym (length_unary _)
