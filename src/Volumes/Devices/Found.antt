-- ===== src/Volumes/Devices/Found.antt =====
-- The device path that GetDevicePath of internal/edgecenter/volumes.go returns.
use edgecenter_ccm.Prelude.{
  Str, Option, Bool, true, not, [], ◌∷◌, ◌⊎◌, inl, inr, ◌==◌, nat_eq, str_eq, Err, wait_timeout,
  error_is, Outcome, ok, err, panic, pure, world, assign, NeverErrs, assign-NeverErrs,
  pure-NeverErrs, >>=-NeverErrs, world-NeverErrs, world-eq-ok, >>=-eq-ok, ok_injective, ◌≡◌, refl,
  ap, subst, arith, ◌>>◌,
}
use edgecenter_ccm.Cloud.Client.{Backoff}
use edgecenter_ccm.Cloud.Host.{Host, Metadata}
use edgecenter_ccm.Cloud.Wait.{IsBackoff}
use edgecenter_ccm.Cloud.Wait.Ends.{IsTimed}
use edgecenter_ccm.Volumes.Devices.{
  get_device_path_by_serial_id, get_device_path_from_instance_metadata, by_metadata, device_check,
  found_path, get_device_path, device_steps, Searching,
}
use edgecenter_ccm.Volumes.Devices.Sources.{
  FromSerial, FromMetadata, by_serial-Found, by_metadata-Found, by_serial-NeverErrs,
  from_metadata-NeverErrs,
}

module _ {State : Type 0} (host : Host State) (id : Str) where
  -- A path that was found by an answer of the host that ended in this state, the metadata's cache
  -- at its front.
  abbrev pub Found : Str → Option Metadata × State → Type 0
  Found path y = ¬ (path ≡ []) × (FromSerial host id path y.1 ⊎ FromMetadata host id path y)

  serial_first :
      (path : Str) (y : Option Metadata × State)
      → (path ≡ []) ⊎ FromSerial host id path y.1
      → ¬ (path ≡ [])
      → Found path y
  serial_first path y (inl e) some_path = absurd (some_path e)
  serial_first path y (inr f) some_path = (some_path, inl f)

  metadata_second :
      (path : Str) (y : Option Metadata × State)
      → (path ≡ []) ⊎ FromMetadata host id path y
      → ¬ (path ≡ [])
      → Found path y
  metadata_second path y (inl e) some_path = absurd (some_path e)
  metadata_second path y (inr f) some_path = (some_path, inr f)

  module _ (backoff : Backoff (Option Metadata × State)) where
    by_metadata-true :
        (first path : Str) (x y : Option Metadata × State)
        → (first ≡ []) ⊎ FromSerial host id first x.1
        → by_metadata host backoff id first (first, x) ≡ (ok true, (path, y))
        → Found path y
    unfolding by_metadata
    by_metadata-true (c ∷ first) path x y from h =
        subst (λ (z : Searching host backoff). Found z.0 z.1)
          (ap (λ (z : Outcome Bool × Searching host backoff). z.1) h)
          (serial_first (c ∷ first) x from (λ e. cc))
    by_metadata-true [] path x y from h =
        let (p, (w, u), e1, h1) =
          >>=-eq-ok (world (get_device_path_from_instance_metadata host id)) _ ([], x) h in
        let got =
          by_metadata-Found host id x u p
            (world-eq-ok (get_device_path_from_instance_metadata host id) ([], x) (w, u) e1) in
        by_path p u got h1
      where
        by_path :
            (p : Str) (u : Option Metadata × State)
            → (p ≡ []) ⊎ FromMetadata host id p u
            → (do assign p; pure (not (p == []))) ([], u) ≡ (ok true, (path, y))
            → Found path y
        by_path [] u got h1 = ground arith
        by_path (c ∷ p) u got h1 =
            subst (λ (z : Searching host backoff). Found z.0 z.1)
              (ap (λ (z : Outcome Bool × Searching host backoff). z.1) h1)
              (metadata_second (c ∷ p) u got (λ e. cc))

    by_metadata-NeverErrs : (path : Str) → NeverErrs (by_metadata host backoff id path)
    unfolding by_metadata
    by_metadata-NeverErrs (c ∷ path) = pure-NeverErrs _
    by_metadata-NeverErrs [] =
        >>=-NeverErrs (world (get_device_path_from_instance_metadata host id))
          (λ path. do assign path; pure (not (path == [])))
          (world-NeverErrs _ (from_metadata-NeverErrs host id))
          (λ path.
            >>=-NeverErrs (assign path) (λ u. pure (not (path == []))) (assign-NeverErrs path)
              (λ u. pure-NeverErrs (not (path == []))))

    device_check-true :
        (old path : Str) (x y : Option Metadata × State)
        → device_check host backoff id (old, x) ≡ (ok true, (path, y))
        → Found path y
    unfolding device_check
    device_check-true old path (cache, s) y h =
        let serial = get_device_path_by_serial_id host id in
        let (p, (w, u), e1, h1) = >>=-eq-ok (world (world serial)) _ (old, (cache, s)) h in
        let read =
          world-eq-ok serial (cache, s) u
            (world-eq-ok (world serial) (old, (cache, s)) (w, u) e1) in
        by_metadata-true p path u y (by_serial-Found host id s u.1 p read) h1

    device_check-NeverErrs : NeverErrs (device_check host backoff id)
    unfolding device_check
    device_check-NeverErrs =
        >>=-NeverErrs (world (world (get_device_path_by_serial_id host id)))
          (λ path. do assign path; by_metadata host backoff id path)
          (world-NeverErrs _ (world-NeverErrs _ (by_serial-NeverErrs host id)))
          (λ path.
            >>=-NeverErrs (assign path) (λ u. by_metadata host backoff id path)
              (assign-NeverErrs path) (λ u. by_metadata-NeverErrs path))

    found_path-Found :
        (r : Outcome (Unit {0})) (last path : Str) (y : Option Metadata × State)
        → (r ≡ ok tt → Found last y)
        → ((e : Err) → r ≡ err e → error_is e wait_timeout ≡ true)
        → found_path r last ≡ ok path
        → Found path y
    unfolding found_path
    found_path-Found (ok tt) [] path y found timed h = ground arith
    found_path-Found (ok tt) (c ∷ last) path y found timed h =
        subst (λ (p : Str). Found p y) (ok_injective h) (found refl)
    found_path-Found (err e) last path y found timed h = ground (arith, timed e refl)
    found_path-Found panic last path y found timed h = ground arith

    -- Where the backoff loop behaves as documented: the path that GetDevicePath returns is not empty.
    -- It is a file that a reading of /dev/disk/by-id, which ended in the returned state, listed under
    -- one of the volume's names; or else it is the one match, in an answer that ended there, for the
    -- bus and address of a disk whose serial is the volume's ID in the metadata that the cache holds
    -- in the returned state.
    pub get_device_path-Found :
        (waits : IsBackoff backoff) (timed : IsTimed backoff) (path : Str)
        (s t : Option Metadata × State)
        → get_device_path host backoff id s ≡ (ok path, t)
        → Found path t
    unfolding get_device_path
    get_device_path-Found waits timed path s t h =
        let check = device_check host backoff id in
        let run = backoff Str device_steps check ([], s) in
        found_path-Found run.0 run.1.0 path t
          (λ e.
            let (w, u, _, last) =
              waits.done Str device_steps check (λ w. Unit {0}) (λ v w s t p e. tt) [] s run.1 tt
                (ended run e) in
            subst (λ (y : Option Metadata × State). Found run.1.0 y)
              (ap (λ (z : Outcome Str × (Option Metadata × State)). z.1) h)
              (device_check-true w run.1.0 u run.1.1 last))
          (λ e q. elim (timed.failed Str device_steps check ([], s) run.1 e (stopped run e q)) [
            | inl late ↦ late
            | inr (y, failed) ↦ absurd (device_check-NeverErrs y run.1 e failed)
          ])
          (ap (λ (z : Outcome Str × (Option Metadata × State)). z.0) h)
      where
        ended : (x : Outcome (Unit {0}) × Searching host backoff) → x.0 ≡ ok tt → x ≡ (ok tt, x.1)
        ended x e = ground arith

        stopped :
            (x : Outcome (Unit {0}) × Searching host backoff) (e : Err)
            → x.0 ≡ err e
            → x ≡ (err e, x.1)
        stopped x e q = ground arith
