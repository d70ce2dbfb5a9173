-- ===== src/Volumes/Disks/Safety.antt =====
-- What AttachDisk, DetachDisk, DeleteVolume and ExpandVolume of internal/edgecenter/volumes.go do to
-- a volume, by the state in which they read it.
use edgecenter_ccm.Prelude.{
  String, Str, not, [], ◌⊎◌, inl, inr, ◌==◌, str_eq, Err, Outcome, ok, attempt, quoting, >>=-eq-ok,
  quoting-eq-ok, pure-eq-ok, if-cases, fail_neq_ok, guard-passed, double_negation, eq_of_==, ◌≡◌,
  ap, sym, ◌∙◌,
}
use edgecenter_ccm.Cloud.Types.{CloudVolume}
use edgecenter_ccm.Cloud.Client.{Client}
use edgecenter_ccm.Volumes.Api.{Volume, available, in_use, from_cloud, get_volume}
use edgecenter_ccm.Volumes.Disks.{
  attach, attach_disk, attached_elsewhere, get_node_name_by_id, detach_disk,
}

module _ (c : Client) where
  open c use {State, volumes}

  -- The volume, as the API answered.
  abbrev pub Read : Str → State → Volume → State → Type 0
  Read id s v t = (w : CloudVolume) × (volumes.get id s ≡ (ok w, t)) × (v ≡ from_cloud w)

  pub get_volume-Read :
      (id : Str) (s t : State) (v : Volume) → get_volume c id s ≡ (ok v, t) → Read id s v t
  unfolding get_volume
  get_volume-Read id s t v h =
      let text : String = "error occurred getting volume by ID: %s, err: " in
      let (w, u, e, h1) = >>=-eq-ok (quoting text (volumes.get id)) _ s h in
      let got = quoting-eq-ok text (volumes.get id) s e in
      let same = pure-eq-ok h1 in
      (
        w,
        got ∙ ap (λ (x : State). (ok w, x)) (ap (λ (x : Outcome Volume × State). x.1) h1),
        sym same,
      )

  -- What AttachDisk did, when it returned no error.
  abbrev pub AttachedTo : Str → Str → Volume → State → Str → State → Type 0
  AttachedTo instance_id volume_id v u id t =
      ((v.attached_server_id ≡ instance_id) × (t ≡ u) × (id ≡ v.id))
      ⊎ ((v.attached_server_id ≡ [])
          × ((w : CloudVolume) × (volumes.attach volume_id instance_id u ≡ (ok w, t))
              × (id ≡ w.id)))

  attach-Attached :
      (instance_id volume_id : Str) (u t : State) (id : Str)
      → attach c instance_id volume_id u ≡ (ok id, t)
      → (w : CloudVolume) × (volumes.attach volume_id instance_id u ≡ (ok w, t)) × (id ≡ w.id)
  unfolding attach
  attach-Attached instance_id volume_id u t id h =
      let text : String = "failed to attach %s volume to %s compute: " in
      let (w, x, e, h1) = >>=-eq-ok (quoting text (volumes.attach volume_id instance_id)) _ u h in
      let got = quoting-eq-ok text (volumes.attach volume_id instance_id) u e in
      (
        w,
        got ∙ ap (λ (y : State). (ok w, y)) (ap (λ (y : Outcome Str × State). y.1) h1),
        sym (pure-eq-ok h1),
      )

  -- A volume of another instance gives an error.
  elsewhere_fails :
      (v : Volume) (node : Err ⊎ Str) (u t : State) (id : Str)
      → ¬ (attached_elsewhere c v node u ≡ (ok id, t))
  unfolding attached_elsewhere
  elsewhere_fails v (inl e) u t id h = fail_neq_ok h
  elsewhere_fails v (inr node) u t id h = fail_neq_ok h

  -- AttachDisk succeeds only where the volume, when it was read, was attached to the instance
  -- or to none. In the first case the state stays as the reading left it; in the second the
  -- API accepted the attachment.
  pub attach_disk-Attached :
      (instance_id volume_id id : Str) (s t : State)
      → attach_disk c instance_id volume_id s ≡ (ok id, t)
      → (v : Volume) × (u : State) × Read volume_id s v u
        × AttachedTo instance_id volume_id v u id t
  unfolding attach_disk
  attach_disk-Attached instance_id volume_id id s t h =
      let (v, u, e, h1) = >>=-eq-ok (get_volume c volume_id) _ s h in
      (
        v,
        u,
        get_volume-Read volume_id s u v e,
        elim (if-cases (v.attached_server_id == []) _ _ u h1) [
          | inl (none_yet, h2) ↦
              inr (eq_of_== none_yet, attach-Attached instance_id volume_id u t id h2)
          | inr (some_yet, h2) ↦ elim (if-cases (instance_id == v.attached_server_id) _ _ u h2) [
            | inl (ours, h3) ↦ inl (
              sym (eq_of_== ours),
              ap (λ (x : Outcome Str × State). x.1) (sym h3),
              sym (pure-eq-ok h3),
            )
            | inr (other, h3) ↦
                let (node, x, _, h4) =
                  >>=-eq-ok (attempt (get_node_name_by_id c v.attached_server_id)) _ u h3 in
                absurd (elsewhere_fails v node x t id h4)
          ]
        ],
      )

  -- DetachDisk succeeds only where the volume, when it was read, was available, and then the
  -- state stays as the reading left it, or where it was in use by the instance and the API
  -- accepted the request.
  pub detach_disk-Detached :
      (instance_id volume_id : Str) (s t : State)
      → detach_disk c instance_id volume_id s ≡ (ok tt, t)
      → (v : Volume) × (u : State) × Read volume_id s v u
        × (((v.status ≡ available) × (t ≡ u))
            ⊎ ((v.status ≡ in_use)
                × (v.attached_server_id ≡ instance_id)
                × (volumes.detach volume_id instance_id u ≡ (ok tt, t))))
  unfolding detach_disk
  detach_disk-Detached instance_id volume_id s t h =
      let (v, u, e, h1) = >>=-eq-ok (get_volume c volume_id) _ s h in
      (
        v,
        u,
        get_volume-Read volume_id s u v e,
        elim (if-cases (v.status == available) _ _ u h1) [
          | inl (free, h2) ↦
              inl (eq_of_== free, ap (λ (x : Outcome (Unit {0}) × State). x.1) (sym h2))
          | inr (_, h2) ↦
              let (used, h3) = guard-passed (not (v.status == in_use)) _ _ u h2 in
              let (ours, h4) = guard-passed (not (v.attached_server_id == instance_id)) _ _ u h3 in
              inr (
                eq_of_== (double_negation used),
                eq_of_== (double_negation ours),
                quoting-eq-ok _ (volumes.detach volume_id instance_id) u h4,
              )
        ],
      )
