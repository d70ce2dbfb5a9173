-- ===== src/Volumes/Metrics/Counted.antt =====
-- What the metrics of internal/edgecenter/volumes.go count of the operations on volumes.
use edgecenter_ccm.Prelude.{
  ℕ, Str, List, [], ◌∷◌, codes, Exec, Outcome, ok, err, panic, wrapping, continue, world, deref,
  ◌>>=◌, ◌>>◌, ◌≡◌, refl,
}
use edgecenter_ccm.Cloud.Types.{CloudVolume}
use edgecenter_ccm.Cloud.Client.{Client}
use edgecenter_ccm.Volumes.Api.{create_volume, created_volume, head_id, volume_type}
use edgecenter_ccm.Volumes.Metrics.{
  OperationMetrics, measured_create_volume, record_edgecenter_operation_metric, recorded_success,
}

-- An operation with metrics does what the operation without them does, and counts no error.
abbrev pub CountsNoError :
    {S A : Type 0} → Exec (OperationMetrics × S) A → Exec S A → OperationMetrics → S → Type 0
CountsNoError measured plain metrics s =
    (((measured (metrics, s)).0, (measured (metrics, s)).1.1) ≡ plain s)
    × ((measured (metrics, s)).1.0.errors ≡ metrics.errors)

module _ {S A B : Type 0} where
  >>=-CountsNoError :
      (m : Exec S A) (f : A → Exec (OperationMetrics × S) B) (g : A → Exec S B)
      → ((a : A) (metrics : OperationMetrics) (s : S) → CountsNoError (f a) (g a) metrics s)
      → (metrics : OperationMetrics) (s : S) → CountsNoError (world m >>= f) (m >>= g) metrics s
  >>=-CountsNoError m f g next metrics s = by_outcome (m s)
    where
      by_outcome :
          (x : Outcome A × S)
          → (((continue x.0 f (metrics, x.1)).0, (continue x.0 f (metrics, x.1)).1.1)
              ≡ continue x.0 g x.1)
            × ((continue x.0 f (metrics, x.1)).1.0.errors ≡ metrics.errors)
      by_outcome (ok a, t) = next a metrics t
      by_outcome (err e, t) = (refl, refl)
      by_outcome (panic, t) = (refl, refl)

module _ (c : Client) where
  open c use {State, volumes}

  after_reading :
      (v : CloudVolume) (metrics : OperationMetrics) (s : State)
      → CountsNoError
          (recorded_success (codes "create_volume") >> world (created_volume c v))
          (created_volume c v)
          metrics
          s
  unfolding record_edgecenter_operation_metric
  after_reading v metrics s = (refl, refl)

  after_task :
      (ids : List Str) (metrics : OperationMetrics) (s : State)
      → CountsNoError
          (do
            id ← deref (head_id c ids)
            v ← world (wrapping "cannot get volume with ID: %s. Error: " (volumes.get id))
            recorded_success (codes "create_volume")
            world (created_volume c v))
          (do
            id ← deref (head_id c ids)
            v ← wrapping "cannot get volume with ID: %s. Error: " (volumes.get id)
            created_volume c v)
          metrics
          s
  after_task [] metrics s = (refl, refl)
  after_task (id ∷ ids) metrics s =
      >>=-CountsNoError (wrapping "cannot get volume with ID: %s. Error: " (volumes.get id)) _ _
        after_reading metrics s

  -- The metrics never count an error of createVolume, whatever its outcome is; the volume that it
  -- returns, its error and the state it leaves are those of the operation without metrics.
  pub measured_create_volume-CountsNoError :
      (name : Str) (size : ℕ) (kind : Str) (metrics : OperationMetrics) (s : State)
      → CountsNoError
          (measured_create_volume c name size kind)
          (create_volume c name size kind)
          metrics
          s
  unfolding measured_create_volume create_volume
  measured_create_volume-CountsNoError name size kind metrics s =
      >>=-CountsNoError
        (wrapping "create volume task failed with opts: %v. Error: "
          (volumes.create name size (volume_type c kind)))
        _ _ after_task metrics s
