-- ===== src/Util/Patch/Sent.antt =====
-- What PatchService of internal/util/util.go sends.
use edgecenter_ccm.Prelude.{
  Str, String, true, false, ◌⊎◌, inl, inr, Outcome, ok, lift, quoting, quoting-eq-ok, >>=-eq-ok,
  if-cases, ◌≡◌, ap, sym, ◌∙◌, subst,
}
use edgecenter_ccm.Util.Patch.{Patcher, is_empty_patch, send_patch, patch_service}

module _ {State Service : Type 0} (patcher : Patcher State Service) where
  -- A patch that turns one Service into another: empty, and then the state is as it was, or accepted.
  abbrev pub Sent : Service → Str → State → State → Type 0
  Sent cur patch s t =
      ((is_empty_patch patch ≡ true) × (t ≡ s))
      ⊎ ((is_empty_patch patch ≡ false)
          × (patcher.patch (patcher.namespace cur) (patcher.name cur) patch s ≡ (ok tt, t)))

  send_patch-Sent :
      (cur : Service) (patch : Str) (s t : State)
      → send_patch patcher cur patch s ≡ (ok tt, t)
      → Sent cur patch s t
  unfolding send_patch
  send_patch-Sent cur patch s t h = elim (if-cases (is_empty_patch patch) _ _ s h) [
    | inl (empty, h1) ↦ inl (empty, ap (λ (x : Outcome (Unit {0}) × State). x.1) (sym h1))
    | inr (full, h1) ↦ inr (
      full,
      quoting-eq-ok "failed to patch service object %s/%s: "
          (patcher.patch (patcher.namespace cur) (patcher.name cur) patch) s h1,
    )
  ]

  lifted :
      {A : Type 0} (text : String) (r : Outcome A) {a : A} {s t : State}
      → quoting text (lift r) s ≡ (ok a, t)
      → (r ≡ ok a) × (s ≡ t)
  lifted {A = A} text r {s = s} h =
      let k = quoting-eq-ok text (lift r) s h in
      (ap (λ (x : Outcome A × State). x.0) k, ap (λ (x : Outcome A × State). x.1) k)

  -- PatchService returns no error only where both Services were encoded and a patch was made of the
  -- texts; an empty patch leaves the state as it is, and any other was accepted by the API for the
  -- namespace and the name of the first Service.
  pub patch_service-Sent :
      (cur other : Service) (s t : State)
      → patch_service patcher cur other s ≡ (ok tt, t)
      → (cur_json : Str) × (other_json : Str) × (patch : Str) × (patcher.marshal cur ≡ ok cur_json)
        × (patcher.marshal other ≡ ok other_json)
        × (patcher.create_two_way_merge_patch cur_json other_json ≡ ok patch)
        × Sent cur patch s t
  unfolding patch_service
  patch_service-Sent cur other s t h =
      let (cur_json, s1, e1, h1) =
        >>=-eq-ok
          (quoting "failed to serialize current service object: " (lift (patcher.marshal cur))) _ s
          h in
      let (other_json, s2, e2, h2) =
        >>=-eq-ok
          (quoting "failed to serialize modified service object: " (lift (patcher.marshal other))) _
          s1 h1 in
      let (patch, s3, e3, h3) =
        >>=-eq-ok
          (quoting "failed to create 2-way merge patch: "
            (lift (patcher.create_two_way_merge_patch cur_json other_json)))
          _ s2 h2 in
      let (m1, q1) =
        lifted "failed to serialize current service object: " (patcher.marshal cur) e1 in
      let (m2, q2) =
        lifted "failed to serialize modified service object: " (patcher.marshal other) e2 in
      let (m3, q3) =
        lifted "failed to create 2-way merge patch: "
          (patcher.create_two_way_merge_patch cur_json other_json) e3 in
      (
        cur_json,
        other_json,
        patch,
        m1,
        m2,
        m3,
        subst (λ (x : State). Sent cur patch x t) (sym (q1 ∙ (q2 ∙ q3)))
            (send_patch-Sent cur patch s3 t h3),
      )
