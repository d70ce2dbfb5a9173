-- ===== src/Loadbalancer/Names/Injective.antt =====
-- The keys of ports of internal/edgecenter/loadbalancer_utils.go tell ports apart.
use edgecenter_ccm.Prelude.{
  Str, [], ◌∷◌, ◌++◌, to_lower, decimal, Lacks, inl, separator_inside, last_separator,
  decimal-Lacks, decimal-injective, ◌≡◌, refl, ap, sym, ◌∙◌, subst, arith,
}
use edgecenter_ccm.Cloud.Types.{ServicePort}
use edgecenter_ccm.Loadbalancer.Names.{service_port_key, named_key}

abbrev pub HasNoDash : Str → Type 0
HasNoDash = Lacks b'-'

behind : (a p q : Str) → a ++ (b'-' ∷ (p ++ (b'-' ∷ q))) ≡ (a ++ (b'-' ∷ p)) ++ (b'-' ∷ q)
behind [] p q = refl
behind (c ∷ a) p q = ap (λ (s : Str). c ∷ s) (behind a p q)

named_key-append :
    (name p q : Str) → named_key name (p ++ (b'-' ∷ q)) ≡ named_key name p ++ (b'-' ∷ q)
named_key-append [] p q = refl
named_key-append (c ∷ name) p q = behind (c ∷ name) p q

named_key-injective :
    (name other p q : Str)
    → HasNoDash p
    → HasNoDash q
    → named_key name p ≡ named_key other q
    → (name ≡ other) × (p ≡ q)
named_key-injective [] [] p q no_p no_q h = (refl, h)
named_key-injective [] (d ∷ other) p q no_p no_q h =
    absurd (separator_inside b'-' (d ∷ other) q (subst HasNoDash h no_p))
named_key-injective (c ∷ name) [] p q no_p no_q h =
    absurd (separator_inside b'-' (c ∷ name) p (subst HasNoDash (sym h) no_q))
named_key-injective (c ∷ name) (d ∷ other) p q no_p no_q h =
    last_separator b'-' (c ∷ name) (d ∷ other) p q no_p no_q h

-- Where the protocols of two ports have no dash, the ports have the same key only where they have the
-- same name, the same protocol up to case, and the same number.
pub service_port_key-injective :
    (x y : ServicePort)
    → HasNoDash (to_lower x.protocol)
    → HasNoDash (to_lower y.protocol)
    → service_port_key x ≡ service_port_key y
    → (x.name ≡ y.name) × (to_lower x.protocol ≡ to_lower y.protocol) × (x.port ≡ y.port)
unfolding service_port_key
service_port_key-injective x y no_x no_y h =
    let px = to_lower x.protocol in
    let py = to_lower y.protocol in
    let (front, port) =
      last_separator b'-' (named_key x.name px) (named_key y.name py) (decimal x.port)
        (decimal y.port) (decimal-Lacks b'-' x.port (inl (omega arith)))
        (decimal-Lacks b'-' y.port (inl (omega arith)))
        (sym (named_key-append x.name px (decimal x.port))
          ∙ h
          ∙ named_key-append y.name py (decimal y.port)) in
    let (name, protocol) = named_key-injective x.name y.name px py no_x no_y front in
    (name, protocol, decimal-injective x.port y.port port)
