-- ===== src/Loadbalancer/FloatingIps/Served.antt =====
-- Which floating IP EnsureFloatingIP of internal/edgecenter/loadbalancer_floatingip.go serves a port
-- with.
use edgecenter_ccm.Prelude.{
  Str, String, Option, none, some, Bool, true, false, List, [], ◌∷◌, ◌⊎◌, inl, inr, find, ◌==◌,
  str_eq, if◌then◌else◌, Err, floating_ips_not_found, error_is, Exec, Outcome, ok, err, panic, pure,
  fail, deref, caught, continue, quoting, wrapping, ◌>>=◌, >>=-eq-ok, pure-eq-ok, quoting-eq-ok,
  wrapping-eq-ok, guard-passed, neq_of_==, ◌≡◌, ◌≢◌, refl, ap, sym, ◌∙◌, arith,
}
use edgecenter_ccm.Cloud.Types.{FloatingIp}
use edgecenter_ccm.Cloud.Client.{Client}
use edgecenter_ccm.Loadbalancer.FloatingIps.{
  head_id, create_floating_ip, assign_found, assign_or_create, on_port, by_count,
  ensure_floating_ip,
}

module _ (c : Client) (port_id : Str) where
  open c use {State, IP, ip, floatingips}

  -- A floating IP was created for the port, and read.
  abbrev pub Created : Option IP → State → State → Type 0
  Created address u t =
      (id : Str) × (rest : List Str) × (v : State) × (f : FloatingIp) × (floatingips.create port_id
          u
        ≡ (ok (id ∷ rest), v))
      × (floatingips.get id v ≡ (ok f, t))
      × (address ≡ ip.parse f.address)

  -- The first floating IP with the published address, which has an ID, was assigned to the port.
  abbrev pub Assigned : IP → Option IP → State → State → Type 0
  Assigned published address u t =
      (list : List FloatingIp) × (v : State) × (f g : FloatingIp) × (floatingips.list u
        ≡ (ok list, v))
      × (find (λ x. x.address == ip.text published) list ≡ some f)
      × (f.id ≢ [])
      × (floatingips.assign f.id port_id v ≡ (ok g, t))
      × (address ≡ ip.parse g.address)

  -- The API listed no floating IP for the port, or answered that there is none.
  abbrev pub NoneOnPort : State → State → Type 0
  NoneOnPort s u =
      (floatingips.list_by_port port_id s ≡ (ok [], u))
      ⊎ ((e : Err) × (floatingips.list_by_port port_id s ≡ (err e, u))
          × (error_is e floating_ips_not_found ≡ true))

  abbrev pub New : Option IP → Option IP → State → State → Type 0
  New none address u t = Created address u t
  New (some published) address u t = Assigned published address u t

  abbrev pub Served : Option IP → Option IP → State → State → Type 0
  Served existing address s t =
      ((f : FloatingIp) × (floatingips.list_by_port port_id s ≡ (ok (f ∷ []), t))
        × (address ≡ ip.parse f.address))
      ⊎ ((u : State) × NoneOnPort s u × New existing address u t)

  create_floating_ip-Created :
      (address : Option IP) (u t : State)
      → create_floating_ip c port_id u ≡ (ok address, t)
      → Created address u t
  unfolding create_floating_ip
  create_floating_ip-Created address u t h =
      let create_text : String = "error creating floatingip %+v: " in
      let get_text : String = "cannot get floating IP with ID: %s. Error: " in
      let (ids, v, e, h1) = >>=-eq-ok (quoting create_text (floatingips.create port_id)) _ u h in
      by_ids ids v (quoting-eq-ok create_text (floatingips.create port_id) u e) h1
    where
      by_ids :
          (ids : List Str) (v : State)
          → floatingips.create port_id u ≡ (ok ids, v)
          → (do
            id ← deref (head_id c ids)
            fip ← wrapping "cannot get floating IP with ID: %s. Error: " (floatingips.get id)
            pure (ip.parse fip.address))
              v
            ≡ (ok address, t)
          → Created address u t
      by_ids [] v e h = ground arith
      by_ids (id ∷ rest) v e h =
          let get_text : String = "cannot get floating IP with ID: %s. Error: " in
          let (f, w, e1, h1) = >>=-eq-ok (wrapping get_text (floatingips.get id)) _ v h in
          let left : w ≡ t = ap (λ (x : Outcome (Option IP) × State). x.1) h1 in
          (
            id,
            rest,
            v,
            f,
            e,
            wrapping-eq-ok get_text (floatingips.get id) v e1 ∙ ap (λ (x : State). (ok f, x)) left,
            sym (pure-eq-ok h1),
          )

  assign_found-Assigned :
      (published : IP) (address : Option IP) (list : List FloatingIp) (found : Option FloatingIp)
      (u v t : State)
      → floatingips.list u ≡ (ok list, v)
      → find (λ x. x.address == ip.text published) list ≡ found
      → assign_found c port_id found v ≡ (ok address, t)
      → Assigned published address u t
  unfolding assign_found
  assign_found-Assigned published address list none u v t listed q h = ground arith
  assign_found-Assigned published address list (some f) u v t listed q h =
      let (has_id, h1) = guard-passed (f.id == []) _ _ v h in
      let (g, w, e, h2) = >>=-eq-ok (floatingips.assign f.id port_id) _ v h1 in
      let left : w ≡ t = ap (λ (x : Outcome (Option IP) × State). x.1) h2 in
      (
        list,
        v,
        f,
        g,
        listed,
        q,
        neq_of_== has_id,
        e ∙ ap (λ (x : State). (ok g, x)) left,
        sym (pure-eq-ok h2),
      )

  assign_or_create-New :
      (existing address : Option IP) (u t : State)
      → assign_or_create c port_id existing u ≡ (ok address, t)
      → New existing address u t
  unfolding assign_or_create
  assign_or_create-New none address u t h = create_floating_ip-Created address u t h
  assign_or_create-New (some published) address u t h =
      let (list, v, e, h1) = >>=-eq-ok floatingips.list _ u h in
      assign_found-Assigned published address list (find (λ x. x.address == ip.text published) list)
        u v t e refl h1

  -- EnsureFloatingIP, for a port that shall have a floating IP, returns without an error only the
  -- address of the one floating IP that the API listed for the port; or, where it listed none or
  -- answered that there is none, the address of a floating IP that was created for the port, if the
  -- Service publishes no address, or else of the listed one with the published address, which was
  -- assigned to the port.
  pub ensure_floating_ip-Served :
      (existing address : Option IP) (s t : State)
      → ensure_floating_ip c false port_id existing s ≡ (ok address, t)
      → Served existing address s t
  unfolding ensure_floating_ip on_port by_count
  ensure_floating_ip-Served existing address s t h =
      by_list (floatingips.list_by_port port_id s) refl h
    where
      by_kind :
          (e : Err) (u : State) (b : Bool)
          → floatingips.list_by_port port_id s ≡ (err e, u)
          → error_is e floating_ips_not_found ≡ b
          → (let none_or_error : Exec State (List FloatingIp) = if b then pure [] else fail e in
                none_or_error >>= by_count c port_id existing)
              u
            ≡ (ok address, t)
          → Served existing address s t
      by_kind e u true q k h = inr (u, inr (e, q, k), assign_or_create-New existing address u t h)
      by_kind e u false q k h = ground arith

      by_list :
          (x : Outcome (List FloatingIp) × State)
          → floatingips.list_by_port port_id s ≡ x
          → continue
              (caught x.0)
              (λ listed. do fips ← on_port c listed; by_count c port_id existing fips)
              x.1
            ≡ (ok address, t)
          → Served existing address s t
      by_list (ok [], u) q h = inr (u, inl q, assign_or_create-New existing address u t h)
      by_list (ok (f ∷ []), u) q h =
          let left : u ≡ t = ap (λ (x : Outcome (Option IP) × State). x.1) h in
          inl (f, q ∙ ap (λ (x : State). (ok (f ∷ []), x)) left, sym (pure-eq-ok h))
      by_list (ok (f ∷ g ∷ fips), u) q h = ground arith
      by_list (err e, u) q h = by_kind e u (error_is e floating_ips_not_found) q refl h
      by_list (panic, u) q h = ground arith
