-- ===== src/Loadbalancer/Listeners/Changes.antt =====
-- updateListenerIfNeeded of internal/edgecenter/loadbalancer_listeners.go: when a listener is
-- updated, and with what.
use edgecenter_ccm.Prelude.{
  Bool, Str, Exec, Outcome, ok, pure, quoting, quoting-eq-ok, >>=-eq-ok, ◌>>◌, ap, sym, [], ◌==◌,
  ◌⊎◌, ◌≢◌, inl, inr, refl, Bool-cases, if◌then◌else◌, Option, none, some, true, false, int_eq,
  str_eq, ℤ, ◌↔◌, ◌≡◌, arith,
}
use edgecenter_ccm.Cloud.Types.{Listener, ListenerUpdate}
use edgecenter_ccm.Loadbalancer.Options.Annotations.{ListenerTimeouts}
use edgecenter_ccm.Loadbalancer.Options.Config.{ServiceOptions}
use edgecenter_ccm.Loadbalancer.Listeners.{
  int_ptr_equal, listener_changes, update_listener_if_needed,
}
use edgecenter_ccm.Loadbalancer.Retry.{wait_active}
use edgecenter_ccm.Cloud.Client.{Client}

int_ptr_equal_iff : (a b : Option ℤ) → (int_ptr_equal a b ≡ true) ↔ (a ≡ b)
unfolding int_ptr_equal
int_ptr_equal_iff none none = ground arith
int_ptr_equal_iff none (some b) = ground arith
int_ptr_equal_iff (some a) none = ground arith
int_ptr_equal_iff (some a) (some b) = ground arith

-- The listener has the timeouts, a timeout that is absent included.
abbrev pub HasTimeouts : Listener → ListenerTimeouts → Type 0
HasTimeouts ln t =
    (ln.timeout_client_data ≡ t.client_data)
    × (ln.timeout_member_data ≡ t.member_data)
    × (ln.timeout_member_connect ≡ t.member_connect)

abbrev pub HasParsedTimeouts : Listener → Option ListenerTimeouts → Type 0
HasParsedTimeouts ln none = Unit
HasParsedTimeouts ln (some t) = HasTimeouts ln t

-- The listener has the secret and, where the annotations could be read, the timeouts that the
-- options ask for.
abbrev pub IsUpToDate : Listener → ServiceOptions → Type 0
IsUpToDate ln opts = (ln.secret_id ≡ opts.secret_id) × HasParsedTimeouts ln opts.timeouts

pub listener_changes-eq-false_iff :
    (ln : Listener) (opts : ServiceOptions)
    → ((listener_changes ln opts).1 ≡ false) ↔ IsUpToDate ln opts
unfolding listener_changes
listener_changes-eq-false_iff ln opts = by_timeouts opts.timeouts
  where
    by_timeouts :
        (timeouts : Option ListenerTimeouts)
        → ((listener_changes ln (record opts { timeouts = timeouts })).1 ≡ false)
          ↔ ((ln.secret_id ≡ opts.secret_id) × HasParsedTimeouts ln timeouts)
    by_timeouts none = ground arith
    by_timeouts (some t) = ground (
      arith,
      int_ptr_equal_iff ln.timeout_client_data t.client_data,
      int_ptr_equal_iff ln.timeout_member_data t.member_data,
      int_ptr_equal_iff ln.timeout_member_connect t.member_connect,
    )

-- A field of the request: left out where the listener has the value already, and else the wanted one
abbrev pub SentField : {A : Type 0} → A → A → A → A → Type 0
SentField unset has wanted sent =
    ((has ≡ wanted) × (sent ≡ unset)) ⊎ ((has ≢ wanted) × (sent ≡ wanted))

abbrev SentTimeouts : Listener → Option ListenerTimeouts → ListenerUpdate → Type 0
SentTimeouts ln none req =
    (req.timeout_client_data ≡ none)
    × (req.timeout_member_data ≡ none)
    × (req.timeout_member_connect ≡ none)
SentTimeouts ln (some t) req =
    SentField none ln.timeout_client_data t.client_data req.timeout_client_data
    × SentField none ln.timeout_member_data t.member_data req.timeout_member_data
    × SentField none ln.timeout_member_connect t.member_connect req.timeout_member_connect

-- The request keeps the listener's name and carries the values that differ.
abbrev pub Sends : Listener → ServiceOptions → ListenerUpdate → Type 0
Sends ln opts req =
    (req.name ≡ ln.name)
    × SentField [] ln.secret_id opts.secret_id req.secret_id
    × SentTimeouts ln opts.timeouts req

sent_field : (a b : Option ℤ) → SentField none a b (if int_ptr_equal a b then none else b)
sent_field a b = elim (Bool-cases (int_ptr_equal a b)) [
  | inl e ↦ inl ((int_ptr_equal_iff a b).0 e, rw e refl)
  | inr e ↦ inr (λ same. ground (arith, (int_ptr_equal_iff a b).1 same), rw e refl)
]

listener_changes-Sends :
    (ln : Listener) (opts : ServiceOptions)
    → Sends ln opts (record (listener_changes ln opts).0 { name = ln.name })
unfolding listener_changes
listener_changes-Sends ln opts = by_timeouts opts.timeouts
  where
    by_timeouts :
        (timeouts : Option ListenerTimeouts)
        → Sends ln
            (record opts { timeouts = timeouts })
            (record (listener_changes ln (record opts { timeouts = timeouts })).0 {
              name = ln.name;
            })
    by_timeouts none = elim (Bool-cases (ln.secret_id == opts.secret_id)) [
      | inl e ↦
          let same : ln.secret_id ≡ opts.secret_id = ground arith in
          rw e (refl, inl (same, refl), (refl, refl, refl))
      | inr e ↦
          let differs : ln.secret_id ≢ opts.secret_id = λ same. ground arith in
          rw e (refl, inr (differs, refl), (refl, refl, refl))
    ]
    by_timeouts (some t) = elim (Bool-cases (ln.secret_id == opts.secret_id)) [
      | inl e ↦
          let same : ln.secret_id ≡ opts.secret_id = ground arith in
          rw e (
            refl,
            inl (same, refl),
            (
              sent_field ln.timeout_client_data t.client_data,
              sent_field ln.timeout_member_data t.member_data,
              sent_field ln.timeout_member_connect t.member_connect,
            ),
          )
      | inr e ↦
          let differs : ln.secret_id ≢ opts.secret_id = λ same. ground arith in
          rw e (
            refl,
            inr (differs, refl),
            (
              sent_field ln.timeout_client_data t.client_data,
              sent_field ln.timeout_member_data t.member_data,
              sent_field ln.timeout_member_connect t.member_connect,
            ),
          )
    ]

module _ (c : Client) where
  open c use {State, loadbalancers}

  -- When updateListenerIfNeeded returns no error, then either the listener has the secret and,
  -- where the timeout annotations could be read, the three timeouts that are asked for (an annotation
  -- that is absent asks for no timeout), and the state stays as it is; or it has not, and the API
  -- accepted an update under the listener's name, with the secret and the timeouts that differ and
  -- without the others, and the wait for the load balancer that followed ended without an error.
  pub update_listener_if_needed-Sends :
      (lb_id : Str) (ln : Listener) (opts : ServiceOptions) (s t : State)
      → update_listener_if_needed c lb_id ln opts s ≡ (ok tt, t)
      → (IsUpToDate ln opts × (t ≡ s))
        ⊎ (¬ (IsUpToDate ln opts)
            × ((req : ListenerUpdate) × (u : State) × Sends ln opts req
                × (loadbalancers.listener_update ln.id req s ≡ (ok tt, u))
                × (wait_active c lb_id u ≡ (ok tt, t))))
  unfolding update_listener_if_needed
  update_listener_if_needed-Sends lb_id ln opts s t h = by_flag (listener_changes ln opts).1 refl h
    where
      req : ListenerUpdate
      req = record (listener_changes ln opts).0 { name = ln.name }

      update : Exec State (Unit {0})
      update = do
        quoting "failed updating listener %s: " (loadbalancers.listener_update ln.id req)
        quoting "LB not ACTIVE after listener update: " (wait_active c lb_id)

      by_flag :
          (b : Bool)
          → (listener_changes ln opts).1 ≡ b
          → (if b then update else pure tt) s ≡ (ok tt, t)
          → (IsUpToDate ln opts × (t ≡ s))
            ⊎ (¬ (IsUpToDate ln opts)
                × ((r : ListenerUpdate) × (u : State) × Sends ln opts r
                    × (loadbalancers.listener_update ln.id r s ≡ (ok tt, u))
                    × (wait_active c lb_id u ≡ (ok tt, t))))
      by_flag false e h = inl (
        (listener_changes-eq-false_iff ln opts).0 e,
        sym (ap (λ (x : Outcome (Unit {0}) × State). x.1) h),
      )
      by_flag true e h =
          let (_, u, sent, h1) =
            >>=-eq-ok
              (quoting "failed updating listener %s: " (loadbalancers.listener_update ln.id req)) _
              s h in
          inr (
            λ fresh. ground (arith, (listener_changes-eq-false_iff ln opts).1 fresh),
            (
              req,
              u,
              listener_changes-Sends ln opts,
              quoting-eq-ok "failed updating listener %s: "
                  (loadbalancers.listener_update ln.id req) s sent,
              quoting-eq-ok "LB not ACTIVE after listener update: " (wait_active c lb_id) u h1,
            ),
          )
