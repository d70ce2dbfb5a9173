-- ===== src/Loadbalancer/Members/Keys.antt =====
-- The keys by which membersChanged of internal/edgecenter/loadbalancer_pools.go compares members, as
-- texts of an address, a port and a subnet.
use mathlib.Core.List.{
  Mem, Mem-prop, Subset, mem-cons, not-mem-nil, mem-map_of_mem, exists_of_mem-map,
}
use mathlib.Core.Logic.Or
use mathlib.Core.Logic.{∥∥₁_elim}
use mathlib.Core.Bool.{Bool-set}
use edgecenter_ccm.Prelude.{
  ℕ, Str, List, [], ◌∷◌, ◌++◌, map, All, inr, decimal, Lacks, last_separator, decimal-Lacks,
  decimal-injective, ◌≡◌, refl, sym, ◌∙◌, ap, subst, arith,
}

-- The text of the address, the port and the subnet's ID
abbrev pub Place : Type 0
Place = Str × (ℕ × Str)

-- "%s:%d|%s"
abbrev pub place_text : Place → Str
place_text (address, (port, subnet)) = address ++ (b':' ∷ (decimal port ++ (b'|' ∷ subnet)))

-- The subnet's ID has no bar.
abbrev pub IsPlain : Place → Type 0
IsPlain (address, (port, subnet)) = Lacks b'|' subnet

behind : (a p q : Str) → a ++ (b':' ∷ (p ++ (b'|' ∷ q))) ≡ (a ++ (b':' ∷ p)) ++ (b'|' ∷ q)
behind [] p q = refl
behind (c ∷ a) p q = ap (λ (s : Str). c ∷ s) (behind a p q)

place_text-injective : (x y : Place) → IsPlain x → IsPlain y → place_text x ≡ place_text y → x ≡ y
place_text-injective (a, (p, s)) (b, (q, t)) no_s no_t h =
    let (front, subnets) =
      last_separator b'|' (a ++ (b':' ∷ decimal p)) (b ++ (b':' ∷ decimal q)) s t no_s no_t
        (sym (behind a (decimal p) s) ∙ h ∙ behind b (decimal q) t) in
    let (addresses, ports) =
      last_separator b':' a b (decimal p) (decimal q) (decimal-Lacks b':' p (inr (omega arith)))
        (decimal-Lacks b':' q (inr (omega arith))) front in
    rw (addresses, decimal-injective p q ports, subnets) refl

IsPlain-at : (ps : List Place) (x : Place) → All IsPlain ps → Mem x ps → IsPlain x
IsPlain-at [] x h m = absurd (not-mem-nil m)
IsPlain-at (p ∷ ps) x (h, hs) m =
    Or.elim (Bool-set _ _) (mem-cons.0 m) (λ e. subst IsPlain (sym e) h) (λ n. IsPlain-at ps x hs n)

-- Texts of places that have the same members stand for the same places.
pub Subset_of_texts :
    (places wanted : List Place)
    → All IsPlain places
    → All IsPlain wanted
    → Subset (map place_text wanted) (map place_text places)
    → Subset wanted places
Subset_of_texts places wanted plain plain_wanted h w m =
    ∥∥₁_elim (exists_of_mem-map (h (place_text w) (mem-map_of_mem place_text m))) Mem-prop (λ t.
      let same : t.0 ≡ w =
        place_text-injective t.0 w (IsPlain-at places t.0 plain t.1)
          (IsPlain-at wanted w plain_wanted m) t.2 in
      subst (λ (p : Place). Mem p places) same t.1)

pub texts-Subset :
    (places wanted : List Place)
    → Subset wanted places
    → Subset (map place_text wanted) (map place_text places)
texts-Subset places wanted h k m = ∥∥₁_elim (exists_of_mem-map m) Mem-prop (λ t.
    subst (λ (p : Str). Mem p (map place_text places)) t.2 (mem-map_of_mem place_text (h t.0 t.1)))
