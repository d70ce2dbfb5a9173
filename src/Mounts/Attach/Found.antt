-- ===== src/Mounts/Attach/Found.antt =====
-- The device path that GetDevicePath of internal/util/mount/mount.go returns.
use edgecenter_ccm.Prelude.{
  Str, Bool, true, false, [], ◌∷◌, ◌⊎◌, inl, inr, str_eq, Err, wait_timeout, error_is, Outcome, ok,
  err, panic, pure, attempt, world, world-Keeps, assign, NeverErrs, assign-NeverErrs,
  pure-NeverErrs, attempt-NeverErrs, >>=-NeverErrs, world-NeverErrs, >>=-eq-ok, pure-eq-ok,
  ok_injective, ◌≡◌, ◌≢◌, refl, ap, subst, arith, ◌>>◌,
}
use edgecenter_ccm.Cloud.Client.{Backoff}
use edgecenter_ccm.Cloud.Host.{Host}
use edgecenter_ccm.Cloud.Wait.{IsBackoff}
use edgecenter_ccm.Cloud.Wait.Ends.{IsTimed}
use edgecenter_ccm.Volumes.Devices.{get_device_path_by_serial_id, list_candidates}
use edgecenter_ccm.Volumes.Devices.Sources.{FromSerial, by_serial-Found, by_serial-NeverErrs}
use edgecenter_ccm.Mounts.Attach.{
  probe_volume, get_device_path_by_serial, after_serial, probe_check, probed_path,
  get_mounted_device_path,
}

-- The two searches by serial ID, of mount.go and volumes.go, are the same.
get_device_path_by_serial-get_device_path_by_serial_id :
    {State : Type 0} (host : Host State) (id : Str)
    → get_device_path_by_serial host id ≡ get_device_path_by_serial_id host id
unfolding get_device_path_by_serial get_device_path_by_serial_id list_candidates
get_device_path_by_serial-get_device_path_by_serial_id host id = refl

module _ {State : Type 0} (host : Host State) (id : Str) where
  -- A path that is not empty, of a file with one of the volume's names
  abbrev pub Listed : Str → Type 0
  Listed path = (path ≢ []) × ((t : State) × FromSerial host id path t)

  after_serial-Listed :
      (first path : Str) (s t : State)
      → (first ≡ []) ⊎ FromSerial host id first s
      → after_serial host first (first, s) ≡ (ok true, (path, t))
      → Listed path
  unfolding after_serial
  after_serial-Listed [] path s t from h =
      let (_, x, _, h1) =
        >>=-eq-ok (attempt (world {V = Str} (probe_volume host))) (λ u. pure false) ([], s) h in
      absurd (never (pure-eq-ok h1))
    where
      never : ¬ (false ≡ true)
      never e = cc
  after_serial-Listed (c ∷ first) path s t from h =
      let same : c ∷ first ≡ path = ap (λ (z : Outcome Bool × (Str × State)). z.1.0) h in
      subst Listed same (λ e. cc, (s, listed from))
    where
      listed :
          (c ∷ first ≡ []) ⊎ FromSerial host id (c ∷ first) s → FromSerial host id (c ∷ first) s
      listed (inl e) = cc
      listed (inr f) = f

  probe_check-Listed :
      (old path : Str) (s t : State)
      → probe_check host id (old, s) ≡ (ok true, (path, t))
      → Listed path
  unfolding probe_check get_device_path_by_serial get_device_path_by_serial_id list_candidates
  probe_check-Listed old path s t h =
      let (p, (w, u), e, h1) =
        >>=-eq-ok (world (get_device_path_by_serial_id host id)) _ (old, s) h in
      after_serial-Listed p path u t
        (by_serial-Found host id s u p
          (world-Keeps (get_device_path_by_serial_id host id) (old, s) (w, u) e).1)
        h1

  after_serial-NeverErrs : (path : Str) → NeverErrs (after_serial host path)
  unfolding after_serial
  after_serial-NeverErrs [] =
      >>=-NeverErrs (attempt (world (probe_volume host))) (λ u. pure false) (attempt-NeverErrs _)
        (λ u. pure-NeverErrs false)
  after_serial-NeverErrs (c ∷ path) = pure-NeverErrs true

  probe_check-NeverErrs : NeverErrs (probe_check host id)
  unfolding probe_check get_device_path_by_serial get_device_path_by_serial_id list_candidates
  probe_check-NeverErrs =
      >>=-NeverErrs (world (get_device_path_by_serial_id host id))
        (λ path. do assign path; after_serial host path)
        (world-NeverErrs _ (by_serial-NeverErrs host id))
        (λ path.
          >>=-NeverErrs (assign path) (λ u. after_serial host path) (assign-NeverErrs path)
            (λ u. after_serial-NeverErrs path))

  probed_path-Listed :
      (r : Outcome (Unit {0})) (last path : Str)
      → (r ≡ ok tt → Listed last)
      → ((e : Err) → r ≡ err e → error_is e wait_timeout ≡ true)
      → probed_path r last ≡ ok path
      → Listed path
  unfolding probed_path
  probed_path-Listed (ok tt) [] path found timed h = ground arith
  probed_path-Listed (ok tt) (c ∷ last) path found timed h =
      subst Listed (ok_injective h) (found refl)
  probed_path-Listed (err e) last path found timed h = ground (arith, timed e refl)
  probed_path-Listed panic last path found timed h = ground arith

  -- Where the backoff loop behaves as documented: the path that GetDevicePath returns is not empty,
  -- and is a file that a reading of /dev/disk/by-id listed under one of the volume's names.
  pub get_mounted_device_path-Listed :
      (backoff : Backoff State) (waits : IsBackoff backoff) (timed : IsTimed backoff) (path : Str)
      (s t : State)
      → get_mounted_device_path host backoff id s ≡ (ok path, t)
      → Listed path
  unfolding get_mounted_device_path
  get_mounted_device_path-Listed backoff waits timed path s t h =
      let check = probe_check host id in
      let run = backoff Str 15 check ([], s) in
      probed_path-Listed run.0 run.1.0 path
        (λ e.
          let (w, u, _, last) =
            waits.done Str 15 check (λ w. Unit {0}) (λ v w s t p e. tt) [] s run.1 tt
              (ended run e) in
          probe_check-Listed w run.1.0 u run.1.1 last)
        (λ e q. elim (timed.failed Str 15 check ([], s) run.1 e (stopped run e q)) [
          | inl late ↦ late
          | inr (y, failed) ↦ absurd (probe_check-NeverErrs y run.1 e failed)
        ])
        (ap (λ (z : Outcome Str × State). z.0) h)
    where
      ended : (x : Outcome (Unit {0}) × (Str × State)) → x.0 ≡ ok tt → x ≡ (ok tt, x.1)
      ended x e = ground arith

      stopped : (x : Outcome (Unit {0}) × (Str × State)) (e : Err) → x.0 ≡ err e → x ≡ (err e, x.1)
      stopped x e q = ground arith
