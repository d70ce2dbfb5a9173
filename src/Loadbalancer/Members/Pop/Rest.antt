-- ===== src/Loadbalancer/Members/Pop/Rest.antt =====
-- What popMember of internal/edgecenter/loadbalancer_pools.go and popListener of
-- loadbalancer_listeners.go leave of a slice, up to the order.
use mathlib.Core.List.{Perm}
use mathlib.Core.List.Perm
use edgecenter_ccm.Prelude.{
  ℕ, zero, suc, ◌≤◌, Str, Bool, true, false, not, List, [], ◌∷◌, filter, length, str_eq,
  if◌then◌else◌, ◌≡◌, refl, arith,
}
use edgecenter_ccm.Cloud.Types.{PoolMember}
use edgecenter_ccm.Cloud.Client.{IpText}
use edgecenter_ccm.Loadbalancer.Members.Pop.{last_in_front, pop_window, pop_member, is_member}

module _ {A : Type 0} where
  length-last_in_front : (xs : List A) → length (last_in_front xs) ≡ length xs
  unfolding last_in_front
  length-last_in_front [] = refl
  length-last_in_front (x ∷ []) = refl
  length-last_in_front (x ∷ y ∷ xs) =
      by_moved (last_in_front (y ∷ xs)) (length-last_in_front (y ∷ xs))
    where
      by_moved :
          (moved : List A)
          → length moved ≡ suc (length xs)
          → length (elim moved as (λ m. List A) [ [] ↦ [] | l ∷ rest ↦ l ∷ x ∷ rest ])
            ≡ suc (suc (length xs))
      by_moved [] h = ground arith
      by_moved (l ∷ rest) h = ground arith

  filter-swap :
      (keep : A → Bool) (x y : A) (xs : List A)
      → Perm (filter keep (x ∷ y ∷ xs)) (filter keep (y ∷ x ∷ xs))
  filter-swap keep x y xs = by_tests (keep x) (keep y)
    where
      by_tests :
          (b c : Bool)
          → Perm
              (if b
                then x ∷ (if c then y ∷ filter keep xs else filter keep xs)
                else (if c then y ∷ filter keep xs else filter keep xs))
              (if c
                then y ∷ (if b then x ∷ filter keep xs else filter keep xs)
                else (if b then x ∷ filter keep xs else filter keep xs))
      by_tests true true = Perm.swap y x (filter keep xs)
      by_tests true false = Perm.refl _
      by_tests false true = Perm.refl _
      by_tests false false = Perm.refl _

  filter-cons :
      (keep : A → Bool) (x : A) (xs ys : List A)
      → Perm (filter keep xs) (filter keep ys)
      → Perm (filter keep (x ∷ xs)) (filter keep (x ∷ ys))
  filter-cons keep x xs ys p = by_test (keep x)
    where
      by_test :
          (b : Bool)
          → Perm
              (if b then x ∷ filter keep xs else filter keep xs)
              (if b then x ∷ filter keep ys else filter keep ys)
      by_test true = Perm.cons x p
      by_test false = p

  filter-last_in_front :
      (keep : A → Bool) (xs : List A) → Perm (filter keep (last_in_front xs)) (filter keep xs)
  unfolding last_in_front
  filter-last_in_front keep [] = Perm.refl _
  filter-last_in_front keep (x ∷ []) = Perm.refl _
  filter-last_in_front keep (x ∷ y ∷ xs) =
      by_moved (last_in_front (y ∷ xs)) (length-last_in_front (y ∷ xs))
        (filter-last_in_front keep (y ∷ xs))
    where
      by_moved :
          (moved : List A)
          → length moved ≡ suc (length xs)
          → Perm (filter keep moved) (filter keep (y ∷ xs))
          → Perm
              (filter keep (elim moved as (λ m. List A) [ [] ↦ [] | l ∷ rest ↦ l ∷ x ∷ rest ]))
              (filter keep (x ∷ y ∷ xs))
      by_moved [] h p = ground arith
      by_moved (l ∷ rest) h p =
          Perm.trans (filter-swap keep l x rest) (filter-cons keep x (l ∷ rest) (y ∷ xs) p)

  pop_window-Perm :
      (matches : A → Bool) (n : ℕ) (window : List A)
      → length window ≤ n
      → Perm (pop_window matches n window) (filter (λ m. not (matches m)) window)
  unfolding pop_window
  pop_window-Perm matches zero [] h = Perm.refl _
  pop_window-Perm matches zero (m ∷ ms) h = ground arith
  pop_window-Perm matches (suc n) [] h = Perm.refl _
  pop_window-Perm matches (suc n) (m ∷ ms) h =
      by_test (matches m)
        (Perm.trans
          (pop_window-Perm matches n (last_in_front ms) (ground (arith, length-last_in_front ms)))
          (filter-last_in_front (λ m. not (matches m)) ms))
        (pop_window-Perm matches n ms (ground arith))
    where
      by_test :
          (b : Bool)
          → Perm (pop_window matches n (last_in_front ms)) (filter (λ m. not (matches m)) ms)
          → Perm (pop_window matches n ms) (filter (λ m. not (matches m)) ms)
          → Perm
              (if b then pop_window matches n (last_in_front ms) else m ∷ pop_window matches n ms)
              (if not b
                then m ∷ filter (λ m. not (matches m)) ms
                else filter (λ m. not (matches m)) ms)
      by_test true moved kept = moved
      by_test false moved kept = Perm.cons m kept

-- popMember leaves the members with another address or port, up to their order: a round for each
-- member is enough, and no member is lost or left.
pub pop_member-Perm :
    {IP : Type 0} (ip : IpText IP) (members : List (PoolMember IP)) (addr : Str) (port : ℕ)
    → Perm (pop_member ip members addr port) (filter (λ m. not (is_member ip addr port m)) members)
unfolding pop_member
pop_member-Perm ip members addr port =
    pop_window-Perm (is_member ip addr port) (length members) members (omega arith)
