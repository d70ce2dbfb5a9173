-- ===== src/Loadbalancer/Options/Annotations.antt =====
-- internal/edgecenter/loadbalancer_annotations.go, and parseListenerTimeouts of
-- loadbalancer_listeners.go
use edgecenter_ccm.Prelude.{
  ℕ, suc, ◌+◌, ◌-◌, ◌*◌, ◌^◌, Str, Option, none, some, Bool, true, false, ◌&&◌, [], ◌∷◌, leb, codes,
  lookup, ◌==◌, str_eq, nat_eq, if◌then◌else◌, failure, wrap, Outcome, ok, err, panic, ℤ, pos,
  negsuc,
}
use edgecenter_ccm.Cloud.Types.{Service}

unfoldable pub get_string_from_service_annotation : Service → Str → Str → Str
unfolding lookup
get_string_from_service_annotation svc key default = elim (lookup key svc.annotations) [
  | none ↦ default
  | some value ↦ value
]

unfoldable pub get_bool_from_service_annotation : Service → Str → Bool → Outcome Bool
unfolding lookup
get_bool_from_service_annotation svc key default = elim (lookup key svc.annotations) [
  | none ↦ ok default
  | some value ↦
      if value == codes "true"
      then ok true
      else if value == codes "false"
      then ok false
      else err (failure "unknown %s annotation: %v, specify \"true\" or \"false\" ")
]

-- strconv.Atoi for a 64-bit int: an optional sign, and digits that fit.
digits_value : ℕ → Str → Option ℕ
digits_value n [] = some n
digits_value n (c ∷ s) =
    let rest = digits_value (n * 10 + (c - b'0')) s in
    if leb b'0' c && leb c b'9' then rest else none

unsigned : Str → Option ℕ
unfolding digits_value
unsigned [] = none
unsigned (c ∷ s) = digits_value 0 (c ∷ s)

abbrev max_int : ℕ
max_int = 2 ^ 63 - 1

abbrev positive : Option ℕ → Option ℤ
positive none = none
positive (some n) = if leb n max_int then some (pos n) else none

abbrev negated : ℕ → ℤ
negated ℕ.zero = pos 0
negated (suc n) = negsuc n

abbrev negative : Option ℕ → Option ℤ
negative none = none
negative (some n) = if leb n (max_int + 1) then some (negated n) else none

unfoldable pub atoi : Str → Option ℤ
unfolding unsigned
atoi [] = none
atoi (c ∷ s) =
    if c == b'-'
    then negative (unsigned s)
    else if c == b'+'
    then positive (unsigned s)
    else positive (unsigned (c ∷ s))

-- ListenerTimeoutConfig
pub record ListenerTimeouts : Type 0 where
  pub client_data : Option ℤ
  pub member_data : Option ℤ
  pub member_connect : Option ℤ

unfoldable pub get_timeout : Service → Str → Outcome (Option ℤ)
unfolding lookup atoi
get_timeout svc key = elim (lookup key svc.annotations) [
  | none ↦ ok none
  | some value ↦ elim (atoi value) [
    | none ↦ err (
        wrap "parsing %s: "
          (wrap "invalid value for annotation %q: " (failure "strconv.Atoi: parsing %s: ")))
    | some n ↦ ok (some n)
  ]
]

infixl 5 ◌>>=◌
abbrev ◌>>=◌ : {A B : Type 0} → Outcome A → (A → Outcome B) → Outcome B
ok a >>= f = f a
err e >>= f = err e
panic >>= f = panic

unfoldable pub parse_listener_timeouts : Service → Outcome ListenerTimeouts
parse_listener_timeouts svc = do
  client_data ← get_timeout svc (codes "loadbalancer.edgecenter.com/timeout-client-data")
  member_data ← get_timeout svc (codes "loadbalancer.edgecenter.com/timeout-member-data")
  member_connect ← get_timeout svc (codes "loadbalancer.edgecenter.com/timeout-member-connect")
  ok (record {
    client_data = client_data;
    member_data = member_data;
    member_connect = member_connect;
  })
