-- ===== src/Volumes/Errors/Refused.antt =====
-- Which failures of DeleteVolume of internal/edgecenter/volumes.go IsDeletedVolumeInUse recognises.
use edgecenter_ccm.Prelude.{
  Str, Bool, true, false, not, [], Err, Outcome, ok, err, panic, Exec, failure, quote, mapped,
  continue, pure, fail, ◌==◌, str_eq, if◌then◌else◌, neq_of_==, eq_of_==, single_negation,
  double_negation, ok_injective, ◌≡◌, ◌≢◌, ◌↔◌, refl, ap, sym, ◌∙◌, subst, arith,
}
use edgecenter_ccm.Cloud.Types.{CloudVolume}
use edgecenter_ccm.Cloud.Client.{Client}
use edgecenter_ccm.Volumes.Errors.{is_deleted_volume_in_use, new_deleted_volume_in_use_error}
use edgecenter_ccm.Volumes.Api.{Volume, from_cloud, get_volume, delete_volume}
use edgecenter_ccm.Volumes.Disks.{disk_is_used, delete_disk}
use edgecenter_ccm.Volumes.Disks.Safety.{Read}

err_injective : {A : Type 0} {d e : Err} → ◌≡◌ {A = Outcome A} (err d) (err e) → d ≡ e
err_injective h = cc

ok_neq_err : {A : Type 0} {a : A} {e : Err} → ¬ (◌≡◌ {A = Outcome A} (ok a) (err e))
ok_neq_err h = cc

true_neq_false : ¬ (true ≡ false)
true_neq_false h = cc

module _ {S A : Type 0} where
  outcome_of : {r r' : Outcome A} {s s' : S} → ◌≡◌ {A = Outcome A × S} (r, s) (r', s') → r ≡ r'
  outcome_of h = ap (λ (x : Outcome A × S). x.0) h

  state_of : {r r' : Outcome A} {s s' : S} → ◌≡◌ {A = Outcome A × S} (r, s) (r', s') → s ≡ s'
  state_of h = ap (λ (x : Outcome A × S). x.1) h

module _ (c : Client) where
  open c use {State, volumes}

  -- The volume was read, and it was attached to an instance.
  abbrev pub ReadAttached : Str → State → State → Type 0
  ReadAttached id s t = (v : Volume) × Read c id s v t × (v.attached_server_id ≢ [])

  delete_volume-err :
      (id : Str) (u t : State) (e : Err)
      → delete_volume c id u ≡ (err e, t)
      → is_deleted_volume_in_use e ≡ false
  unfolding delete_volume is_deleted_volume_in_use
  delete_volume-err id u t e h = by_outcome (volumes.delete id u) h
    where
      by_outcome :
          (x : Outcome (Unit {0}) × State)
          → ◌≡◌ {A = Outcome (Unit {0}) × State}
              (mapped (λ e. failure "cannot delete volume with ID: %s") x.0, x.1)
              (err e, t)
          → is_deleted_volume_in_use e ≡ false
      by_outcome (ok tt, x) h = ground arith
      by_outcome (err d, x) h = ground arith
      by_outcome (panic, x) h = ground arith

  -- DeleteVolume, by the answer to its reading of the volume.
  abbrev get_of : Outcome CloudVolume × State → Outcome Volume × State
  get_of x =
      continue (mapped (quote "error occurred getting volume by ID: %s, err: ") x.0)
        (λ w. pure (from_cloud w)) x.1

  abbrev used_of : Outcome CloudVolume × State → Outcome Bool × State
  used_of x = continue (get_of x).0 (λ v. pure (not (v.attached_server_id == []))) (get_of x).1

  abbrev removal : Str → Bool → Exec State (Unit {0})
  removal id used =
      if used
      then fail (
          new_deleted_volume_in_use_error
            "Cannot delete the volume %q, it's still attached to a node")
      else delete_volume c id

  abbrev deleting : Str → Outcome CloudVolume × State → Outcome (Unit {0}) × State
  deleting id x = continue (used_of x).0 (removal id) (used_of x).1

  -- When DeleteVolume fails, IsDeletedVolumeInUse recognises its error exactly where the volume was
  -- read, in the state that is left, and was attached to an instance.
  pub delete_disk-ReadAttached_iff :
      (volume_id : Str) (s t : State) (e : Err)
      → delete_disk c volume_id s ≡ (err e, t)
      → (is_deleted_volume_in_use e ≡ true) ↔ ReadAttached volume_id s t
  unfolding delete_disk disk_is_used get_volume is_deleted_volume_in_use
  delete_disk-ReadAttached_iff volume_id s t e h = by_reading (volumes.get volume_id s) refl h
    where
      by_attached :
          (w : CloudVolume) (u : State)
          → volumes.get volume_id s ≡ (ok w, u)
          → (attached : Bool) → not ((from_cloud w).attached_server_id == []) ≡ attached
          → removal volume_id attached u ≡ (err e, t)
          → (is_deleted_volume_in_use e ≡ true) ↔ ReadAttached volume_id s t
      by_attached w u q true p k =
          let left : u ≡ t = state_of k in
          (
            λ in_use. (
              from_cloud w,
              (w, q ∙ ap (λ (x : State). (ok w, x)) left, refl),
              neq_of_== (single_negation p),
            ),
            λ read.
                subst (λ (x : Err). is_deleted_volume_in_use x ≡ true)
                  (err_injective (outcome_of k)) refl,
          )
      by_attached w u q false p k =
          let other = delete_volume-err volume_id u t e k in
          (
            λ in_use. absurd (true_neq_false (sym in_use ∙ other)),
            λ read.
                let (v, (x, got, same), attached) = read in
                let cloud : x ≡ w = ok_injective (outcome_of (sym got ∙ q)) in
                absurd (
                  attached (
                    ap (λ (y : Volume). y.attached_server_id) (same ∙ ap from_cloud cloud)
                    ∙ eq_of_== (double_negation p))),
          )

      by_reading :
          (x : Outcome CloudVolume × State)
          → volumes.get volume_id s ≡ x
          → deleting volume_id x ≡ (err e, t)
          → (is_deleted_volume_in_use e ≡ true) ↔ ReadAttached volume_id s t
      by_reading (ok w, u) q k =
          by_attached w u q (not ((from_cloud w).attached_server_id == [])) refl k
      by_reading (err d, u) q k =
          let kind : is_deleted_volume_in_use e ≡ false =
            subst (λ (x : Err). is_deleted_volume_in_use x ≡ false) (err_injective (outcome_of k))
              refl in
          (
            λ in_use. absurd (true_neq_false (sym in_use ∙ kind)),
            λ read.
                let (v, (x, got, same), attached) = read in
                absurd (ok_neq_err (outcome_of (sym got ∙ q))),
          )
      by_reading (panic, u) q k = ground arith
