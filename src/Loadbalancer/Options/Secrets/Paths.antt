-- ===== src/Loadbalancer/Options/Secrets/Paths.antt =====
-- The path of loadbalancer_secrets.go under which the secrets of a cluster are resolved.
use edgecenter_ccm.Prelude.{
  [], ◌∷◌, codes, int_text, int_text-Lacks, int_text-injective, first_separator, append_cancel_left,
  append_cancel_right, ◌≡◌,
}
use edgecenter_ccm.Cloud.Client.{Client}
use edgecenter_ccm.Loadbalancer.Options.Config.{Config}
use edgecenter_ccm.Loadbalancer.Options.Secrets.{path_below, tech_secrets_path}

module _ (c : Client) where
  -- Two configurations have the same path for their secrets only where they name the same project,
  -- the same region and the same cluster, whatever the cluster's ID contains.
  pub tech_secrets_path-injective :
      (x y : Config)
      → tech_secrets_path c x ≡ tech_secrets_path c y
      → (x.project_id ≡ y.project_id) × (x.region_id ≡ y.region_id) × (x.cluster_id ≡ y.cluster_id)
  unfolding tech_secrets_path path_below
  tech_secrets_path-injective x y h =
      let h1 =
        append_cancel_left c.clusters_base_path _ _
          (append_cancel_left (codes "/internal") _ _ h) in
      let (project, h2) =
        first_separator b'/' (int_text x.project_id) (int_text y.project_id) _ _
          (int_text-Lacks x.project_id) (int_text-Lacks y.project_id)
          (append_cancel_left (b'/' ∷ []) _ _ h1) in
      let (region, h3) =
        first_separator b'/' (int_text x.region_id) (int_text y.region_id) _ _
          (int_text-Lacks x.region_id) (int_text-Lacks y.region_id) h2 in
      (
        int_text-injective x.project_id y.project_id project,
        int_text-injective x.region_id y.region_id region,
        append_cancel_right x.cluster_id y.cluster_id (codes "/secrets") h3,
      )
