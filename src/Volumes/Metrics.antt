-- ===== src/Volumes/Metrics.antt =====
-- internal/edgecenter/volumes.go: the metrics that the operations on volumes record, with
-- recordEdgecenterOperationMetric. The operations without their metrics are those of Volumes/Api and
-- Volumes/Disks.
pub mod Counted
use edgecenter_ccm.Prelude.{
  ℕ, Str, Bool, true, false, not, List, [], ◌∷◌, codes, ◌==◌, str_eq, if◌then◌else◌, failure, Exec,
  Outcome, ok, err, panic, pure, fail, deref, world, wrapping, quoting, attempt, ◌>>=◌, ◌>>◌,
}
use edgecenter_ccm.Cloud.Client.{Client}
use edgecenter_ccm.Volumes.Api.{
  Volume, available, in_use, get_volume, delete_volume, extend, head_id, volume_type,
  created_volume,
}
use edgecenter_ccm.Volumes.Disks.{attach, attached_elsewhere, get_node_name_by_id}

-- edgecenterOperationDuration and edgecenterOperationErrorsTotal by their label, one entry for each
-- observation, the latest first. How long an operation took is not modelled.
pub record OperationMetrics : Type 0 where
  pub durations : List Str
  pub errors : List Str

-- recordEdgecenterOperationMetric, with `err != nil`
unfoldable pub record_edgecenter_operation_metric : Str → Bool → OperationMetrics → OperationMetrics
record_edgecenter_operation_metric operation failed m =
    if failed
    then record { durations = operation ∷ m.durations; errors = operation ∷ m.errors }
    else record m { durations = operation ∷ m.durations }

-- `err != nil` where the function ends; a panic leaves `err` as it was, nil.
abbrev pub has_failed : {A : Type 0} → Outcome A → Bool
has_failed (ok a) = false
has_failed (err e) = true
has_failed panic = false

-- `defer func() { recordEdgecenterOperationMetric(operation, …, err) }()`
unfoldable pub deferring_metric : {S A : Type 0} → Str → Exec S A → Exec (OperationMetrics × S) A
unfolding record_edgecenter_operation_metric
deferring_metric operation m (metrics, s) =
    let (r, t) = m s in
    (r, (record_edgecenter_operation_metric operation (has_failed r) metrics, t))

abbrev recorded_success : {S : Type 0} → Str → Exec (OperationMetrics × S) (Unit {0})
recorded_success operation (metrics, s) =
    (ok tt, (record_edgecenter_operation_metric operation false metrics, s))

module _ (c : Client) where
  open c use {State, volumes}

  -- createVolume: both errors of the API have returned before the metric is recorded, so that `err`
  -- is nil there.
  unfoldable pub measured_create_volume :
      Str → ℕ → Str → Exec (OperationMetrics × State) (Str × Str)
  unfolding created_volume record_edgecenter_operation_metric
  measured_create_volume name size kind = do
    created ← world (
        wrapping "create volume task failed with opts: %v. Error: "
          (volumes.create name size (volume_type c kind)))
    id ← deref (head_id c created)
    v ← world (wrapping "cannot get volume with ID: %s. Error: " (volumes.get id))
    recorded_success (codes "create_volume")
    world (created_volume c v)

  -- getVolume and deleteVolume
  unfoldable pub measured_get_volume : Str → Exec (OperationMetrics × State) Volume
  unfolding deferring_metric
  measured_get_volume id = deferring_metric (codes "get_volume") (get_volume c id)

  unfoldable pub measured_delete_volume : Str → Exec (OperationMetrics × State) (Unit {0})
  unfolding deferring_metric
  measured_delete_volume id = deferring_metric (codes "delete_volume") (delete_volume c id)

  -- expandVolume: a status that is refused is not recorded.
  unfoldable pub measured_expand_volume : Str → ℕ → Str → Exec (OperationMetrics × State) (Unit {0})
  unfolding deferring_metric extend
  measured_expand_volume id size status =
      if status == available
      then deferring_metric (codes "expand_volume") (extend c id size)
      else fail (failure "volume status is not 'available'")

  -- AttachDisk and DetachDisk: only the request that changes the attachment is recorded under their
  -- names, the reading of the volume under its own.
  unfoldable pub measured_attach_disk : Str → Str → Exec (OperationMetrics × State) Str
  unfolding measured_get_volume deferring_metric attach attached_elsewhere
  measured_attach_disk instance_id volume_id = do
    v ← measured_get_volume volume_id
    let refuse : Exec State Str = (do
      node ← attempt (get_node_name_by_id c v.attached_server_id)
      attached_elsewhere c v node)
    if v.attached_server_id == []
        then deferring_metric (codes "attach_disk") (attach c instance_id volume_id)
        else if instance_id == v.attached_server_id
        then pure v.id
        else world refuse

  unfoldable pub measured_detach_disk : Str → Str → Exec (OperationMetrics × State) (Unit {0})
  unfolding measured_get_volume deferring_metric
  measured_detach_disk instance_id volume_id = do
    v ← measured_get_volume volume_id
    if v.status == available
        then pure tt
        else if not (v.status == in_use)
        then fail (failure "can not detach volume %s, its status is %s")
        else if not (v.attached_server_id == instance_id)
        then fail (failure "disk: %s has no attachments or is not attached to compute: %s")
        else deferring_metric (codes "detach_disk") (
            quoting "failed to delete volume %s from compute %s attached "
              (volumes.detach volume_id instance_id))
