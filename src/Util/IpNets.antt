-- ===== src/Util/IpNets.antt =====
-- internal/util/net/sets/ipnet.go: sets of IP networks. The map's key is the network's text, which
-- determines its value, so a set is the list of its keys, each once.
pub mod Sets
use edgecenter_ccm.Prelude.{
  ℕ, Str, Option, none, some, Bool, not, ◌&&◌, List, [], ◌∷◌, any, all, filter, length, ◌==◌,
  nat_eq, str_eq, if◌then◌else◌, trim_space,
}

abbrev pub IpNets : Type 0
IpNets = List Str

-- Has: the key is in the map.
unfoldable pub has : IpNets → Str → Bool
has s item = any (λ k. k == item) s

-- s[item.String()] = item
unfoldable pub insert : Str → IpNets → IpNets
unfolding has
insert item s = if has s item then s else item ∷ s

-- Insert
unfoldable pub insert_all : List Str → IpNets → IpNets
unfolding insert
insert_all [] s = s
insert_all (item ∷ items) s = insert_all items (insert item s)

-- delete(s, item.String())
unfoldable pub erase : Str → IpNets → IpNets
erase item s = filter (λ k. not (k == item)) s

-- Delete
unfoldable pub delete : List Str → IpNets → IpNets
unfolding erase
delete [] s = s
delete (item ∷ items) s = delete items (erase item s)

-- HasAll
unfoldable pub has_all : IpNets → List Str → Bool
unfolding has
has_all s items = all (has s) items

-- Difference
unfoldable pub difference : IpNets → IpNets → IpNets
unfolding has
difference s s2 = filter (λ k. not (has s2 k)) s

-- IsSuperset
unfoldable pub is_superset : IpNets → IpNets → Bool
unfolding has
is_superset s s2 = all (has s) s2

-- Equal
unfoldable pub equal : IpNets → IpNets → Bool
unfolding is_superset
equal s s2 = length s == length s2 && is_superset s s2

-- StringSlice: the keys, whose order is not defined; and Len
unfoldable pub string_slice : IpNets → List Str
string_slice s = s

unfoldable pub len : IpNets → ℕ
len s = length s

-- ParseIPNets, over net.ParseCIDR and the text of the network that it returns
unfoldable pub parse_ip_nets : (Str → Option Str) → List Str → IpNets → Option IpNets
unfolding insert
parse_ip_nets parse_cidr [] s = some s
parse_ip_nets parse_cidr (spec ∷ specs) s = elim (parse_cidr (trim_space spec)) [
  | none ↦ none
  | some k ↦ parse_ip_nets parse_cidr specs (insert k s)
]
