-- ===== src/Mounts/Attach/Waiting.antt =====
-- How the loop of ScanForAttach of internal/util/mount/mount.go ends.
use edgecenter_ccm.Prelude.{
  Str, Bool, true, false, List, [], ◌∷◌, ◌⊎◌, inl, inr, Err, Outcome, ok, err, panic, attempt,
  caught, >>=-eq-ok, pure-eq-ok, In, ◌≡◌, refl, ap, subst, arith,
}
use edgecenter_ccm.Cloud.Host.{Host}
use edgecenter_ccm.Mounts.Attach.{
  Event, tick, timer, Scan, waiting, attached, timed_out, probe_volume, after_probe, scan_step,
  go_on, scan_for_attach,
}

module _ {State : Type 0} (host : Host State) (path : Str) where
  -- The device path was seen to exist, and nothing came after it.
  abbrev pub SeenBefore : State → Type 0
  SeenBefore t = (s : State) × (host.path_exists path s ≡ (ok true, t))

  -- What the end of the loop says of the events and of the last state
  abbrev pub EndsAs : Scan → List Event → State → Type 0
  EndsAs attached events t = In tick events × SeenBefore t
  EndsAs timed_out events t = In timer events
  EndsAs waiting events t = ¬ (In timer events)

  seen :
      (x : Outcome Bool × State) (got : Err ⊎ Bool) (t : State)
      → ◌≡◌ {A = Outcome (Err ⊎ Bool) × State} (caught x.0, x.1) (ok got, t)
      → after_probe host got ≡ attached
      → x ≡ (ok true, t)
  seen (ok true, u) got t e h = ap (λ (z : Outcome (Err ⊎ Bool) × State). (ok true, z.1)) e
  seen (ok false, u) got t e h = ground arith
  seen (err d, u) got t e h = ground arith
  seen (panic, u) got t e h = ground arith

  scan_step-EndsAs :
      (e : Event) (r : Scan) (s t : State)
      → scan_step host path e s ≡ (ok r, t)
      → EndsAs r (e ∷ []) t
  unfolding scan_step
  scan_step-EndsAs timer r s t h =
      let same : timed_out ≡ r = pure-eq-ok h in
      subst (λ (x : Scan). EndsAs x (timer ∷ []) t) same (inl refl)
  scan_step-EndsAs tick r s t h =
      let (_, u, _, h1) = >>=-eq-ok (attempt (probe_volume host)) _ s h in
      let (exists, v, e2, h2) = >>=-eq-ok (attempt (host.path_exists path)) _ u h1 in
      by_end r exists u v e2 h2
    where
      never_timer : ¬ (In timer (tick ∷ []))
      never_timer (inl e) = cc
      never_timer (inr e) = e

      never_late : (exists : Err ⊎ Bool) → ¬ (after_probe host exists ≡ timed_out)
      never_late (inr true) e = cc
      never_late (inr false) e = cc
      never_late (inl d) e = cc

      by_end :
          (r : Scan) (exists : Err ⊎ Bool) (u v : State)
          → attempt (host.path_exists path) u ≡ (ok exists, v)
          → ◌≡◌ {A = Outcome Scan × State} (ok (after_probe host exists), v) (ok r, t)
          → EndsAs r (tick ∷ []) t
      by_end waiting exists u v e h = never_timer
      by_end attached exists u v e h =
          let same : v ≡ t = ap (λ (z : Outcome Scan × State). z.1) h in
          (
            inl refl,
            (
              u,
              subst (λ (x : State). host.path_exists path u ≡ (ok true, x)) same
                  (seen (host.path_exists path u) exists v e (pure-eq-ok h)),
            ),
          )
      by_end timed_out exists u v e h = absurd (never_late exists (pure-eq-ok h))

  -- What is left of the events adds to what is said.
  later-EndsAs :
      (r : Scan) (e : Event) (events : List Event) (t : State)
      → ¬ (In timer (e ∷ []))
      → EndsAs r events t
      → EndsAs r (e ∷ events) t
  later-EndsAs attached e events t no_timer (ticked, found) = (inr ticked, found)
  later-EndsAs timed_out e events t no_timer late = inr late
  later-EndsAs waiting e events t no_timer none_later = earlier
    where
      earlier : ¬ (In timer (e ∷ events))
      earlier (inl same) = no_timer (inl same)
      earlier (inr later) = none_later later

  first-EndsAs :
      (r : Scan) (e : Event) (events : List Event) (t : State)
      → ¬ (r ≡ waiting)
      → EndsAs r (e ∷ []) t
      → EndsAs r (e ∷ events) t
  first-EndsAs attached e events t ended (inl here, found) = (inl here, found)
  first-EndsAs attached e events t ended (inr none_left, found) = absurd none_left
  first-EndsAs timed_out e events t ended (inl here) = inl here
  first-EndsAs timed_out e events t ended (inr none_left) = absurd none_left
  first-EndsAs waiting e events t ended h = absurd (ended refl)

  -- ScanForAttach on a sequence of events: it returns nil only where there is a tick among
  -- them and the path was seen to exist just before, it times out only where the timer is
  -- among them, and it waits on only where the timer is not.
  pub scan_for_attach-EndsAs :
      (events : List Event) (r : Scan) (s t : State)
      → scan_for_attach host path events s ≡ (ok r, t)
      → EndsAs r events t
  unfolding scan_for_attach
  scan_for_attach-EndsAs [] r s t h =
      let same : waiting ≡ r = pure-eq-ok h in subst (λ (x : Scan). EndsAs x [] t) same (λ e. e)
  scan_for_attach-EndsAs (e ∷ events) r s t h =
      let (now, u, e1, h1) = >>=-eq-ok (scan_step host path e) _ s h in
      by_step now u (scan_step-EndsAs e now s u e1) (λ k. scan_for_attach-EndsAs events r u t k) h1
    where
      ended :
          (now : Scan) (u : State)
          → ¬ (now ≡ waiting)
          → EndsAs now (e ∷ []) u
          → ◌≡◌ {A = Outcome Scan × State} (ok now, u) (ok r, t)
          → EndsAs r (e ∷ events) t
      ended now u over step h =
          let moved = subst (EndsAs now (e ∷ [])) (ap (λ (z : Outcome Scan × State). z.1) h) step in
          subst (λ (x : Scan). EndsAs x (e ∷ events) t) (pure-eq-ok h)
            (first-EndsAs now e events t over moved)

      by_step :
          (now : Scan) (u : State)
          → EndsAs now (e ∷ []) u
          → (scan_for_attach host path events u ≡ (ok r, t) → EndsAs r events t)
          → go_on host now (scan_for_attach host path events) u ≡ (ok r, t)
          → EndsAs r (e ∷ events) t
      by_step waiting u step again h = later-EndsAs r e events t step (again h)
      by_step attached u step again h = ended attached u (λ q. cc) step h
      by_step timed_out u step again h = ended timed_out u (λ q. cc) step h
