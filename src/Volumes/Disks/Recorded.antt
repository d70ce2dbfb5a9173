-- ===== src/Volumes/Disks/Recorded.antt =====
-- What DisksAreAttached of internal/edgecenter/volumes.go records of each volume.
use edgecenter_ccm.Prelude.{
  Str, some, Bool, true, false, List, [], ◌∷◌, ◌⊎◌, inl, inr, Dict, lookup, insert, lookup-insert,
  lookup-insert_self, ◌==◌, neq_of_==, eq_of_==, str_eq, Err, quote, Outcome, ok, err, panic, pure,
  mapped, continue, caught, attempt, >>=-eq-ok, pure-eq-ok, Bool-cases, All, ◌≡◌, ◌≢◌, refl, sym,
  ◌∙◌, subst, arith,
}
use edgecenter_ccm.Cloud.Types.{CloudVolume}
use edgecenter_ccm.Cloud.Client.{Client}
use edgecenter_ccm.Volumes.Api.{Volume, from_cloud, get_volume}
use edgecenter_ccm.Volumes.Disks.{disk_is_attached, recorded, attached_loop, disks_are_attached}
use edgecenter_ccm.Volumes.Disks.Safety.{Read}

module _ (c : Client) (instance_id : Str) where
  open c use {State, volumes}

  -- The volume was read, and it was attached to the instance; or it could not be read; or it was read,
  -- and it was not attached to the instance.
  abbrev pub Answer : Str → Bool → Type 0
  Answer id b =
      ((b ≡ true)
        × ((v : Volume) × (s t : State) × Read c id s v t × (v.attached_server_id ≡ instance_id)))
      ⊎ (((b ≡ true) × ((e : Err) × (s t : State) × (volumes.get id s ≡ (err e, t))))
          ⊎ ((b ≡ false)
              × ((v : Volume) × (s t : State) × Read c id s v t
                  × (v.attached_server_id ≢ instance_id))))

  abbrev pub Recorded : Dict Bool → Str → Type 0
  Recorded attached id = (b : Bool) × (lookup id attached ≡ some b) × Answer id b

  abbrev was_attached : CloudVolume → Bool
  was_attached w = instance_id == (from_cloud w).attached_server_id

  -- disk_is_attached, by the answer of the API
  abbrev judged : Outcome CloudVolume × State → Outcome (Err ⊎ Bool) × State
  judged x =
      let (r, t) =
        continue (mapped (quote "error occurred getting volume by ID: %s, err: ") x.0)
          (λ w. pure (from_cloud w)) x.1 in
      let (q, u) = continue r (λ v. pure (instance_id == v.attached_server_id)) t in (caught q, u)

  disk_is_attached-Answer :
      (id : Str) (s t : State) (got : Err ⊎ Bool)
      → attempt (disk_is_attached c instance_id id) s ≡ (ok got, t)
      → Answer id (recorded c got)
  unfolding disk_is_attached get_volume
  disk_is_attached-Answer id s t got h = by_reading (volumes.get id s) refl h
    where
      by_test :
          (w : CloudVolume) (u : State) (b : Bool)
          → volumes.get id s ≡ (ok w, u)
          → was_attached w ≡ b
          → Answer id b
      by_test w u true q e = inl (refl, (from_cloud w, s, u, (w, q, refl), sym (eq_of_== e)))
      by_test w u false q e =
          inr (inr (refl, (from_cloud w, s, u, (w, q, refl), λ p. neq_of_== e (sym p))))

      by_reading :
          (x : Outcome CloudVolume × State)
          → volumes.get id s ≡ x
          → judged x ≡ (ok got, t)
          → Answer id (recorded c got)
      by_reading (ok w, u) q k =
          let same : inr (was_attached w) ≡ got = pure-eq-ok k in
          subst (λ (y : Err ⊎ Bool). Answer id (recorded c y)) same
            (by_test w u (was_attached w) q refl)
      by_reading (err e, u) q k =
          let same : inl (quote "error occurred getting volume by ID: %s, err: " e) ≡ got =
            pure-eq-ok k in
          subst (λ (y : Err ⊎ Bool). Answer id (recorded c y)) same (inr (inl (refl, (e, s, u, q))))
      by_reading (panic, u) q k = ground arith

  insert-Recorded :
      (k id : Str) (b : Bool) (attached : Dict Bool)
      → Answer k b
      → Recorded attached id
      → Recorded (insert k b attached) id
  insert-Recorded k id b attached new (old, found, answer) = elim (Bool-cases (k == id)) [
    | inl e ↦ (
      b,
      lookup-insert k id b attached ∙ rw e refl,
      subst (λ (j : Str). Answer j b) (eq_of_== e) new,
    )
    | inr e ↦ (old, lookup-insert k id b attached ∙ rw e found, answer)
  ]

  inserted-Recorded :
      (k : Str) (b : Bool) (attached : Dict Bool) → Answer k b → Recorded (insert k b attached) k
  inserted-Recorded k b attached new = (b, lookup-insert_self k b attached, new)

  attached_loop-Recorded :
      (ids : List Str) (before after : Dict Bool) (s t : State)
      → attached_loop c instance_id ids before s ≡ (ok after, t)
      → All (Recorded after) ids × ((id : Str) → Recorded before id → Recorded after id)
  unfolding attached_loop
  attached_loop-Recorded [] before after s t h =
      (tt, λ id kept. subst (λ (m : Dict Bool). Recorded m id) (pure-eq-ok h) kept)
  attached_loop-Recorded (k ∷ ids) before after s t h =
      let (got, u, e, h1) = >>=-eq-ok (attempt (disk_is_attached c instance_id k)) _ s h in
      let answer = disk_is_attached-Answer k s u got e in
      let (all, keeps) =
        attached_loop-Recorded ids (insert k (recorded c got) before) after u t h1 in
      (
        (keeps k (inserted-Recorded k (recorded c got) before answer), all),
        λ id kept. keeps id (insert-Recorded k id (recorded c got) before answer kept),
      )

  -- What DisksAreAttached returns has an entry for each of the volumes. An entry is true where the
  -- volume was read and attached to the instance, or where it could not be read, for whatever error;
  -- it is false only where the volume was read and not attached to the instance.
  pub disks_are_attached-Recorded :
      (ids : List Str) (attached : Dict Bool) (s t : State)
      → disks_are_attached c instance_id ids s ≡ (ok attached, t)
      → All (Recorded attached) ids
  unfolding disks_are_attached
  disks_are_attached-Recorded ids attached s t h = (attached_loop-Recorded ids [] attached s t h).0
