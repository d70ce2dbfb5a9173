-- ===== src/Loadbalancer/Options/Secrets.antt =====
-- internal/edgecenter/loadbalancer_secrets.go: the technical secret behind the secret that a Service
-- names.
pub mod Paths
use edgecenter_ccm.Prelude.{
  Str, [], ◌∷◌, ◌++◌, codes, int_text, ◌==◌, str_eq, if◌then◌else◌, Exec, pure, wrapping, ◌>>=◌,
}
use edgecenter_ccm.Cloud.Types.{Service}
use edgecenter_ccm.Cloud.Client.{Client}
use edgecenter_ccm.Loadbalancer.Options.Annotations.{get_string_from_service_annotation}
use edgecenter_ccm.Loadbalancer.Options.Config.{Config}

-- SecretSchema, the body of the request and of the answer
pub record SecretSchema : Type 0 where
  pub secret_id : Str

-- "/internal%s/%d/%d/%s/secrets"
unfoldable pub path_below : Str → Config → Str
path_below base config =
    codes "/internal"
    ++ (base
        ++ (b'/'
            ∷ (int_text config.project_id
                ++ (b'/'
                    ∷ (int_text config.region_id
                        ++ (b'/' ∷ (config.cluster_id ++ codes "/secrets")))))))

module _ (c : Client) where
  open c use {State, clusters_base_path, new_request, do_request}

  unfoldable pub tech_secrets_path : Config → Str
  unfolding path_below
  tech_secrets_path config = path_below clusters_base_path config

  unfoldable pub resolve_tech_secret_id : Config → Str → Exec State Str
  unfolding tech_secrets_path
  resolve_tech_secret_id config secret_id =
      let schema : SecretSchema = record { secret_id = secret_id } in
      do
        req ←
            wrapping "creating tech secret request: "
              (new_request (codes "POST") (tech_secrets_path config) schema.secret_id)
        wrapping "resolving tech secret: " (do_request req)

  unfoldable pub get_secret_id : Config → Service → Exec State Str
  unfolding resolve_tech_secret_id
  get_secret_id config svc =
      let client_secret_id =
        get_string_from_service_annotation svc
          (codes "loadbalancer.edgecenter.com/default-tls-container-ref") [] in
      if client_secret_id == []
      then pure []
      else wrapping "failed to get tech secret for service %s: "
          (resolve_tech_secret_id config client_secret_id)
