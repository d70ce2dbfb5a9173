-- ===== src/Volumes/Disks/Changes.antt =====
-- DeleteVolume and ExpandVolume of internal/edgecenter/volumes.go: when they change a volume.
use edgecenter_ccm.Prelude.{
  ℕ, Str, Bool, false, not, List, [], ◌∷◌, ◌⊎◌, inl, inr, ◌==◌, leb, ◌≤◌, ◌<◌, str_eq, ℤ, pos,
  negsuc, failure, Outcome, ok, err, panic, lift, ◌>>=◌, deref, >>=-eq-ok, pure-eq-ok, mapped,
  if-cases, fail_neq_ok, guard-passed, double_negation, eq_of_==, ◌≡◌, ap, sym, ◌∙◌, subst, arith,
}
use edgecenter_ccm.Cloud.Client.{Client}
use edgecenter_ccm.Volumes.Size.{round_up_to_gib_int}
use edgecenter_ccm.Volumes.Api.{
  Volume, available, get_volume, delete_volume, expand_volume, extend, head_id,
}
use edgecenter_ccm.Volumes.Disks.{disk_is_used, delete_disk, grow, expand_disk}
use edgecenter_ccm.Volumes.Disks.Safety.{Read, get_volume-Read}

module _ (c : Client) where
  open c use {State, volumes}

  delete_volume-Deleted :
      (id : Str) (u t : State)
      → delete_volume c id u ≡ (ok tt, t)
      → volumes.delete id u ≡ (ok tt, t)
  unfolding delete_volume
  delete_volume-Deleted id u t h = by_outcome (volumes.delete id u) h
    where
      by_outcome :
          (x : Outcome (Unit {0}) × State)
          → ◌≡◌ {A = Outcome (Unit {0}) × State}
              (mapped (λ e. failure "cannot delete volume with ID: %s") x.0, x.1)
              (ok tt, t)
          → x ≡ (ok tt, t)
      by_outcome (ok tt, x) h = h
      by_outcome (err e, x) h = ground arith
      by_outcome (panic, x) h = ground arith

  -- DeleteVolume succeeds only where the volume, when it was read, was attached to no instance, and
  -- the API accepted the removal in the state of that reading.
  pub delete_disk-Deleted :
      (volume_id : Str) (s t : State)
      → delete_disk c volume_id s ≡ (ok tt, t)
      → (v : Volume) × (u : State) × Read c volume_id s v u
        × (v.attached_server_id ≡ [])
        × (volumes.delete volume_id u ≡ (ok tt, t))
  unfolding delete_disk disk_is_used
  delete_disk-Deleted volume_id s t h =
      let (used, u, e, h1) = >>=-eq-ok (disk_is_used c volume_id) _ s h in
      let (unused, h2) = guard-passed used _ _ u h1 in
      let (v, w, e1, h3) = >>=-eq-ok (get_volume c volume_id) _ s e in
      let same : w ≡ u = ap (λ (x : Outcome Bool × State). x.1) h3 in
      let free : not (v.attached_server_id == []) ≡ false = pure-eq-ok h3 ∙ unused in
      (
        v,
        u,
        get_volume-Read c volume_id s u v (e1 ∙ ap (λ (x : State). (ok v, x)) same),
        eq_of_== (double_negation free),
        delete_volume-Deleted volume_id u t h2,
      )

  -- The volume was given `size` GiB: the API made a task of it, and the task ended.
  abbrev pub Extended : Str → ℕ → State → State → Type 0
  Extended id size u t =
      (task : Str) × (rest : List Str) × (x : State) × (volumes.extend id size u
        ≡ (ok (task ∷ rest), x))
      × (volumes.wait_for_task task x ≡ (ok tt, t))

  extend-Extended :
      (id : Str) (size : ℕ) (u t : State) → extend c id size u ≡ (ok tt, t) → Extended id size u t
  unfolding extend
  extend-Extended id size u t h =
      let (tasks, x, e, h1) = >>=-eq-ok (volumes.extend id size) _ u h in by_tasks tasks x e h1
    where
      by_tasks :
          (tasks : List Str) (x : State)
          → volumes.extend id size u ≡ (ok tasks, x)
          → (do task ← deref (head_id c tasks); volumes.wait_for_task task) x ≡ (ok tt, t)
          → Extended id size u t
      by_tasks [] x e h = ground arith
      by_tasks (task ∷ rest) x e h = (task, rest, x, e, h)

  expand_volume-Extended :
      (id status : Str) (size : ℕ) (u t : State)
      → expand_volume c id size status u ≡ (ok tt, t)
      → (status ≡ available) × Extended id size u t
  unfolding expand_volume
  expand_volume-Extended id status size u t h = elim (if-cases (status == available) _ _ u h) [
    | inl (free, h1) ↦ (eq_of_== free, extend-Extended id size u t h1)
    | inr (_, h1) ↦ absurd (fail_neq_ok h1)
  ]

  -- What a successful growth to `n` GiB did with a volume that was read.
  abbrev pub GrownTo : Str → ℕ → Volume → State → State → Type 0
  GrownTo id n v u t =
      ((n ≤ v.size) × (t ≡ u)) ⊎ ((v.size < n) × (v.status ≡ available) × Extended id n u t)

  grow-GrownTo :
      (id : Str) (n : ℕ) (v : Volume) (u t : State) (got : ℤ)
      → grow c id v (pos n) u ≡ (ok got, t)
      → (got ≡ pos n) × GrownTo id n v u t
  unfolding grow
  grow-GrownTo id n v u t got h = elim (if-cases (leb n v.size) _ _ u h) [
    | inl (enough, h1) ↦
        (sym (pure-eq-ok h1), inl (ground arith, ap (λ (x : Outcome ℤ × State). x.1) (sym h1)))
    | inr (small, h1) ↦
        let (_, x, e, h2) = >>=-eq-ok (expand_volume c id n v.status) _ u h1 in
        let same : x ≡ t = ap (λ (y : Outcome ℤ × State). y.1) h2 in
        let (free, extended) = expand_volume-Extended id v.status n u x e in
        (sym (pure-eq-ok h2), inr (ground arith, free, subst (Extended id n u) same extended))
  ]

  -- ExpandVolume succeeds with a size of n GiB only where n is the request rounded up, and
  -- the volume had that size already when it was read, and then the state stays as it was, or
  -- it was smaller and available, and the API's task that extends it to n GiB ended.
  pub expand_disk-GrownTo :
      (bits : ℕ) (volume_id : Str) (bytes : ℤ) (s t : State) (n : ℕ)
      → expand_disk c bits volume_id bytes s ≡ (ok (pos n), t)
      → (v : Volume) × (u : State) × Read c volume_id s v u
        × (round_up_to_gib_int bits bytes ≡ ok (pos n))
        × GrownTo volume_id n v u t
  unfolding expand_disk grow
  expand_disk-GrownTo bits volume_id bytes s t n h =
      let (v, u, e, h1) = >>=-eq-ok (get_volume c volume_id) _ s h in
      let (gib, x, e1, h2) = >>=-eq-ok (lift (round_up_to_gib_int bits bytes)) _ u h1 in
      by_size v u e gib x e1 h2
    where
      by_size :
          (v : Volume) (u : State)
          → get_volume c volume_id s ≡ (ok v, u)
          → (gib : ℤ) (x : State)
          → ◌≡◌ {A = Outcome ℤ × State} (round_up_to_gib_int bits bytes, u) (ok gib, x)
          → grow c volume_id v gib x ≡ (ok (pos n), t)
          → (v : Volume) × (u : State) × Read c volume_id s v u
            × (round_up_to_gib_int bits bytes ≡ ok (pos n))
            × GrownTo volume_id n v u t
      by_size v u e (negsuc k) x e1 h2 = ground arith
      by_size v u e (pos k) x e1 h2 =
          let same : u ≡ x = ap (λ (y : Outcome ℤ × State). y.1) e1 in
          let (size, grown) = grow-GrownTo volume_id k v x t (pos n) h2 in
          let number : k ≡ n = ground arith in
          (
            v,
            u,
            get_volume-Read c volume_id s u v e,
            ap (λ (y : Outcome ℤ × State). y.0) e1 ∙ ap ok (sym size),
            subst (λ (y : State). GrownTo volume_id n v y t) (sym same)
                (subst (λ (y : ℕ). GrownTo volume_id y v x t) number grown),
          )
