-- ===== src/Mounts/Blocks/Grown.antt =====
-- What a successful rescan of internal/util/blockdevice/blockdevice_linux.go says of the device.
use edgecenter_ccm.Prelude.{
  ℕ, Str, ◌⊎◌, inl, inr, ltb, ◌==◌, nat_eq, ◌≤◌, String, Err, Outcome, ok, err, panic, attempt,
  caught, quoting-eq-ok, guard-passed, if-cases, eq_of_==, fail_neq_ok, >>=-eq-ok, ◌≡◌, refl, ap,
  arith,
}
use edgecenter_ccm.Cloud.Host.{Host}
use edgecenter_ccm.Mounts.Blocks.{
  get_block_device_size, check_block_device_size, check_again, find_block_device_rescan_path,
  write_rescan, rescan, rescan_block_device_geometry,
}

module _ {State : Type 0} (host : Host State) where
  -- The end of the open device was found at `size` or behind it.
  abbrev pub HasSize : Str → ℕ → Type 0
  HasSize path size =
      (s t : State) × (end : ℕ) × (host.seek_end path s ≡ (ok end, t)) × (size ≤ end)

  check_block_device_size-HasSize :
      (path : Str) (size : ℕ) (s t : State)
      → check_block_device_size host path size s ≡ (ok tt, t)
      → HasSize path size
  unfolding check_block_device_size get_block_device_size
  check_block_device_size-HasSize path size s t h =
      let (end, u, e, h1) = >>=-eq-ok (get_block_device_size host path) _ s h in
      let (_, v, _, h2) = >>=-eq-ok (host.open_file path) _ s e in
      let text : String = "error seeking to end of %s: " in
      let (enough, _) = guard-passed (ltb end size) _ _ u h1 in
      (v, u, end, quoting-eq-ok text (host.seek_end path) v h2, ground arith)

  rescan-HasSize :
      (path : Str) (size : ℕ) (x : Err ⊎ Unit {0}) (s t : State)
      → (x ≡ inr tt → HasSize path size)
      → rescan host path size x s ≡ (ok tt, t)
      → HasSize path size
  unfolding rescan check_again
  rescan-HasSize path size (inr tt) s t checked h = checked refl
  rescan-HasSize path size (inl first) s t checked h =
      let (found, u, _, h1) = >>=-eq-ok (attempt (find_block_device_rescan_path host path)) _ s h in
      let (written, v, _, h2) = >>=-eq-ok (attempt (write_rescan host found)) _ u h1 in
      by_written written v h2
    where
      by_written :
          (written : Err ⊎ Unit {0}) (v : State)
          → check_again host path size first written v ≡ (ok tt, t)
          → HasSize path size
      by_written (inl e) v h = absurd (fail_neq_ok h)
      by_written (inr tt) v h = check_block_device_size-HasSize path size v t h

  -- RescanBlockDeviceGeometry succeeds only where no size was asked for, or where the device was seen
  -- to have the size.
  pub rescan_block_device_geometry-HasSize :
      (path : Str) (size : ℕ) (s t : State)
      → rescan_block_device_geometry host path size s ≡ (ok tt, t)
      → (size ≡ 0) ⊎ HasSize path size
  unfolding rescan_block_device_geometry
  rescan_block_device_geometry-HasSize path size s t h = elim (if-cases (size == 0) _ _ s h) [
    | inl (none_asked, _) ↦ inl (eq_of_== none_asked)
    | inr (_, h1) ↦
        let (checked, u, e, h2) =
          >>=-eq-ok (attempt (check_block_device_size host path size)) _ s h1 in
        inr (
          rescan-HasSize path size checked u t
            (λ q.
              check_block_device_size-HasSize path size s u
                (passed (check_block_device_size host path size s) u checked e q))
            h2)
  ]
    where
      passed :
          (x : Outcome (Unit {0}) × State) (u : State) (checked : Err ⊎ Unit {0})
          → ◌≡◌ {A = Outcome (Err ⊎ Unit {0}) × State} (caught x.0, x.1) (ok checked, u)
          → checked ≡ inr tt
          → x ≡ (ok tt, u)
      passed (ok tt, v) u checked e q =
          ap (λ (z : Outcome (Err ⊎ Unit {0}) × State). (ok tt, z.1)) e
      passed (err d, v) u checked e q = ground arith
      passed (panic, v) u checked e q = ground arith
