-- ===== src/Loadbalancer/Settled.antt =====
-- The ports of a Service with the listener and the pool that each has, and the maps and the sets of IDs
-- that the phases of EnsureLoadBalancer build of them.
use edgecenter_ccm.Prelude.{
  Str, some, Bool, true, not, ◌||◌, List, [], ◌∷◌, map, any, filter, ◌==◌, str_eq, Dict, lookup,
  insert, lookup-insert, lookup-insert_self, All, Distinct, Bool-cases, inl, inr, eq_of_==, ◌≡◌,
  refl, sym, ◌∙◌, ap, arith,
}
use edgecenter_ccm.Cloud.Types.{ServicePort, Listener, Pool}
use edgecenter_ccm.Loadbalancer.Names.{service_port_key}

pub record Entry (IP : Type 0) : Type 0 where
  pub port : ServicePort
  pub listener : Listener
  pub pool : Pool IP

module _ {IP : Type 0} where
  abbrev pub key_of : Entry IP → Str
  key_of e = service_port_key e.port

  abbrev pub ports_of : List (Entry IP) → List ServicePort
  ports_of entries = map (λ e. e.port) entries

module _ {IP V : Type 0} (value : Entry IP → V) where
  abbrev pub dict_of : List (Entry IP) → Dict V → Dict V
  dict_of [] m = m
  dict_of (e ∷ entries) m = dict_of entries (insert (key_of e) (value e) m)

  dict_of-keeps :
      (entries : List (Entry IP)) (m : Dict V) (k : Str)
      → All (λ e. ¬ (k ≡ key_of e)) entries
      → lookup k (dict_of entries m) ≡ lookup k m
  dict_of-keeps [] m k fresh = refl
  dict_of-keeps (e ∷ entries) m k (other, fresh) = ground (
    arith,
    dict_of-keeps entries (insert (key_of e) (value e) m) k fresh,
    lookup-insert (key_of e) k (value e) m,
  )

  -- Every entry is found under its key.
  pub dict_of-found :
      (entries : List (Entry IP)) (m : Dict V)
      → Distinct key_of entries
      → All (λ e. lookup (key_of e) (dict_of entries m) ≡ some (value e)) entries
  dict_of-found [] m distinct = tt
  dict_of-found (e ∷ entries) m (fresh, distinct) = (
    dict_of-keeps entries (insert (key_of e) (value e) m) (key_of e) fresh
        ∙ lookup-insert_self (key_of e) (value e) m,
    dict_of-found entries (insert (key_of e) (value e) m) distinct,
  )

  -- A binding that is there already changes no lookup.
  pub insert_same :
      (k j : Str) (v : V) (m : Dict V) → lookup k m ≡ some v → lookup j (insert k v m) ≡ lookup j m
  insert_same k j v m h = elim (Bool-cases (k == j)) [
    | inl e ↦ lookup-insert k j v m ∙ rw e (sym h ∙ ap (λ (x : Str). lookup x m) (eq_of_== e))
    | inr e ↦ lookup-insert k j v m ∙ rw e refl
  ]

module _ {IP V : Type 0} (id : V → Str) (value : Entry IP → V) where
  -- The IDs in use, the last one first
  abbrev pub used_by : List (Entry IP) → List Str → List Str
  used_by [] used = used
  used_by (e ∷ entries) used = used_by entries (id (value e) ∷ used)

  -- Some entry has the value's ID.
  abbrev pub is_used : List (Entry IP) → V → Bool
  is_used entries v = any (λ e. id (value e) == id v) entries

  used_by-any :
      (entries : List (Entry IP)) (used : List Str) (v : V)
      → any (λ i. i == id v) (used_by entries used)
        ≡ (any (λ i. i == id v) used || is_used entries v)
  used_by-any [] used v = ground arith
  used_by-any (e ∷ entries) used v = ground (arith, used_by-any entries (id (value e) ∷ used) v)

  -- Where all values are in use, none is left over.
  pub leftover_none :
      (entries : List (Entry IP)) (values : List V)
      → All (λ v. is_used entries v ≡ true) values
      → filter (λ v. not (any (λ i. i == id v) (used_by entries []))) values ≡ []
  leftover_none entries [] h = refl
  leftover_none entries (v ∷ values) (h, rest) =
      ground (arith, used_by-any entries [] v, leftover_none entries values rest)
