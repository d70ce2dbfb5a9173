-- ===== src/Loadbalancer/Members/Pop.antt =====
-- popMember of internal/edgecenter/loadbalancer_pools.go and popListener of
-- loadbalancer_listeners.go, which remove elements of a slice in place. The slice's tail, which the
-- caller may still see, is not modelled.
pub mod Rest
use edgecenter_ccm.Prelude.{
  ℕ, zero, suc, Str, Bool, true, false, not, ◌&&◌, List, [], ◌∷◌, filter, length, ◌==◌, nat_eq,
  str_eq, if◌then◌else◌, ◌≡◌,
}
use edgecenter_ccm.Cloud.Types.{PoolMember, Listener}
use edgecenter_ccm.Cloud.Client.{IpText}
use edgecenter_ccm.Loadbalancer.Members.{ip_string}

module _ {A : Type 0} where
  -- The elements with the first one overwritten by the last one, and the end moved by one.
  unfoldable pub last_in_front : List A → List A
  last_in_front [] = []
  last_in_front (x ∷ []) = x ∷ []
  last_in_front (x ∷ y ∷ xs) = elim (last_in_front (y ∷ xs)) [ [] ↦ [] | l ∷ rest ↦ l ∷ x ∷ rest ]

  -- The loop from `i` to `j`, on the elements between them: `fuel` bounds their number.
  unfoldable pub pop_window : (A → Bool) → ℕ → List A → List A
  pop_window matches zero window = []
  pop_window matches (suc n) [] = []
  pop_window matches (suc n) (m ∷ ms) =
      let moved = pop_window matches n (last_in_front ms) in
      let kept = pop_window matches n ms in if matches m then moved else m ∷ kept

-- popListener: the first listener with the ID
unfoldable pub pop_listener : List Listener → Str → List Listener
pop_listener [] id = []
pop_listener (l ∷ ls) id =
    let rest = pop_listener ls id in if l.id == id then last_in_front ls else l ∷ rest

module _ {IP : Type 0} (ip : IpText IP) where
  abbrev pub is_member : Str → ℕ → PoolMember IP → Bool
  is_member addr port m = ip_string ip m.address == addr && m.protocol_port == port

  -- popMember
  unfoldable pub pop_member : List (PoolMember IP) → Str → ℕ → List (PoolMember IP)
  pop_member members addr port = pop_window (is_member addr port) (length members) members
