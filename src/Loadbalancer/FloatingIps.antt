-- ===== src/Loadbalancer/FloatingIps.antt =====
-- internal/edgecenter/loadbalancer_floatingip.go: the floating IP of the load balancer's VIP port.
pub mod Served
use edgecenter_ccm.Prelude.{
  Str, Option, none, some, Bool, true, false, List, [], ◌∷◌, ◌⊎◌, inl, inr, find, filter, ◌==◌,
  str_eq, if◌then◌else◌, Err, failure, floating_ips_not_found, error_is, Exec, pure, fail, deref,
  attempt, wrapping, quoting, ◌>>=◌, ◌>>◌,
}
use edgecenter_ccm.Cloud.Types.{FloatingIp, Service, Loadbalancer}
use edgecenter_ccm.Cloud.Client.{Client}

module _ (c : Client) where
  open c use {State, IP, ip, floatingips}

  unfoldable pub get_floating_ips_by_addr : Str → Exec State (List FloatingIp)
  get_floating_ips_by_addr addr = do
    list ← floatingips.list
    pure (filter (λ f. f.address == addr) list)

  unfoldable pub delete_floating_ips : List FloatingIp → Exec State (Unit {0})
  delete_floating_ips [] = pure tt
  delete_floating_ips (f ∷ fips) = do floatingips.delete f.id; delete_floating_ips fips

  -- `needDelete`
  unfoldable pub release_floating_ip : Option IP → Exec State (Option IP)
  unfolding get_floating_ips_by_addr delete_floating_ips
  release_floating_ip none = pure none
  release_floating_ip (some existing) = do
    fips ← get_floating_ips_by_addr (ip.text existing)
    delete_floating_ips fips
    pure none

  abbrev pub head_id : List Str → Option Str
  head_id [] = none
  head_id (id ∷ ids) = some id

  unfoldable pub create_floating_ip : Str → Exec State (Option IP)
  create_floating_ip port_id = do
    created ← quoting "error creating floatingip %+v: " (floatingips.create port_id)
    id ← deref (head_id created)
    fip ← wrapping "cannot get floating IP with ID: %s. Error: " (floatingips.get id)
    pure (ip.parse fip.address)

  unfoldable pub assign_found : Str → Option FloatingIp → Exec State (Option IP)
  assign_found port_id none = fail (failure "floating ip %s does not exist")
  assign_found port_id (some f) =
      if f.id == []
      then fail (failure "floating ip %s does not exist")
      else do fip ← floatingips.assign f.id port_id; pure (ip.parse fip.address)

  -- An address that the Service already publishes is reused.
  unfoldable pub assign_or_create : Str → Option IP → Exec State (Option IP)
  unfolding create_floating_ip assign_found
  assign_or_create port_id none = create_floating_ip port_id
  assign_or_create port_id (some existing) = do
    list ← floatingips.list
    assign_found port_id (find (λ f. f.address == ip.text existing) list)

  -- `err != nil && !errors.Is(err, ErrFloatingIPsNotFound)`; the error leaves an empty list
  unfoldable pub on_port : Err ⊎ List FloatingIp → Exec State (List FloatingIp)
  on_port (inl e) = if error_is e floating_ips_not_found then pure [] else fail e
  on_port (inr fips) = pure fips

  unfoldable pub by_count : Str → Option IP → List FloatingIp → Exec State (Option IP)
  unfolding assign_or_create
  by_count port_id existing [] = assign_or_create port_id existing
  by_count port_id existing (f ∷ []) = pure (ip.parse f.address)
  by_count port_id existing (f ∷ g ∷ fips) =
      fail (failure "more than one floating IPs for port %s found")

  unfoldable pub ensure_floating_ip : Bool → Str → Option IP → Exec State (Option IP)
  unfolding on_port by_count release_floating_ip
  ensure_floating_ip true port_id existing = release_floating_ip existing
  ensure_floating_ip false port_id existing = do
    listed ← attempt (floatingips.list_by_port port_id)
    fips ← on_port listed
    by_count port_id existing fips

  -- The first published address, if it is not empty.
  abbrev published : List Str → Option IP
  published [] = none
  published (lb_ip ∷ ips) = if lb_ip == [] then none else ip.parse lb_ip

  -- ensureServiceFloatingIP of loadbalancer.go
  unfoldable pub ensure_service_floating_ip : Service → Loadbalancer IP → Exec State (Option IP)
  unfolding ensure_floating_ip
  ensure_service_floating_ip svc lb =
      quoting "failed to create floating IP: "
        (ensure_floating_ip false lb.vip_port_id (published svc.ingress))
