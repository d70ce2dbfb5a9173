-- ===== src/Util/Patch.antt =====
-- internal/util/util.go: PatchService. The JSON encoder, the library that makes the patch and the API
-- of Kubernetes are parameters.
pub mod Sent
use edgecenter_ccm.Prelude.{
  Str, Bool, ◌||◌, [], codes, ◌==◌, str_eq, if◌then◌else◌, Exec, Outcome, pure, lift, quoting,
  ◌>>=◌,
}

-- The fields of a Service that PatchService uses itself
pub record Patcher (State Service : Type 0) : Type 0 where
  pub namespace : Service → Str
  pub name : Service → Str
  -- json.Marshal
  pub marshal : Service → Outcome Str
  -- strategicpatch.CreateTwoWayMergePatch
  pub create_two_way_merge_patch : Str → Str → Outcome Str
  -- the request for a patch, by the namespace, the name and the patch
  pub patch : Str → Str → Str → Exec State (Unit {0})

-- `len(patch) == 0 || string(patch) == "{}"`
abbrev pub is_empty_patch : Str → Bool
is_empty_patch patch = patch == [] || patch == codes "{}"

module _ {State Service : Type 0} (patcher : Patcher State Service) where
  unfoldable pub send_patch : Service → Str → Exec State (Unit {0})
  send_patch cur patch =
      if is_empty_patch patch
      then pure tt
      else quoting "failed to patch service object %s/%s: "
          (patcher.patch (patcher.namespace cur) (patcher.name cur) patch)

  -- PatchService: the Service as it is, and as it shall be
  unfoldable pub patch_service : Service → Service → Exec State (Unit {0})
  unfolding send_patch
  patch_service cur mod_ = do
    cur_json ← quoting "failed to serialize current service object: " (lift (patcher.marshal cur))
    mod_json ← quoting "failed to serialize modified service object: " (lift (patcher.marshal mod_))
    patch ←
        quoting "failed to create 2-way merge patch: "
          (lift (patcher.create_two_way_merge_patch cur_json mod_json))
    send_patch cur patch
