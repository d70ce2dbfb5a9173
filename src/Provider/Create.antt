-- ===== src/Provider/Create.antt =====
-- internal/edgecenter/edgecenter.go: NewEdgecenterClient and NewEdgecenter. The HTTP transports of
-- the standard library, the reading of certificates and the API's client are parameters.
pub mod Accepted
use edgecenter_ccm.Prelude.{
  Str, Option, none, some, Bool, not, List, [], ◌∷◌, ◌++◌, codes, ℤ, pos, ◌==◌, str_eq,
  if◌then◌else◌, failure, Exec, Outcome, ok, err, panic, pure, fail, lift, wrapping, ◌>>=◌,
}
use edgecenter_ccm.Provider.Config.{ProviderConfig, EdgecenterOpts}
use edgecenter_ccm.Provider.Options.{Edgecenter, check_edgecenter_opts}

-- instrumentedRoundTripper wraps the transport of the client.
pub data RoundTripper (Transport : Type 0) : Type 0 where
  plain : Transport → RoundTripper Transport
  instrumented : RoundTripper Transport → RoundTripper Transport

-- What the client is made with: the key, the URL, the region, the project and the user agent
pub record ClientOpts : Type 0 where
  pub api_key : Str
  pub base_url : Str
  pub region : ℤ
  pub project : ℤ
  pub user_agent : Str

-- The API's client, with the transport and the timeout of its HTTP client
pub record HttpClient (Transport : Type 0) : Type 0 where
  pub made_with : ClientOpts
  pub transport : RoundTripper Transport
  pub timeout : ℤ

pub record Networking (State : Type 0) : Type 1 where
  pub Transport : Type 0
  pub Pool : Type 0
  pub default_transport : Transport
  -- the transport that NewWithRetries leaves, if any
  pub new_with_retries : ClientOpts → Exec State (Option (RoundTripper Transport))
  -- certutil.NewPool, and AppendCertsFromPEM on a new pool
  pub new_pool : Str → Exec State Pool
  pub append_certs_from_pem : Str → Option Pool
  -- a transport with these roots, which skips the verification or not
  pub tls_transport : Pool → Bool → Transport
  -- version.Version, which the linker sets
  pub version : Str

-- `for _, data := range extraUserAgent { ua = data + " " + ua }`
unfoldable pub with_extra_agents : List Str → Str → Str
with_extra_agents [] ua = ua
with_extra_agents (data_ ∷ extra) ua = with_extra_agents extra (data_ ++ (codes " " ++ ua))

module _ {State : Type 0} (net : Networking State) where
  open net use {Transport, Pool}

  abbrev or_default_transport : Option (RoundTripper Transport) → RoundTripper Transport
  or_default_transport none = plain net.default_transport
  or_default_transport (some t) = t

  abbrev parsed_pool : Option Pool → Exec State (Option Pool)
  parsed_pool none = fail (failure "failed to parse os-certAuthority certificate")
  parsed_pool (some p) = pure (some p)

  unfoldable pub ca_pool : EdgecenterOpts → Exec State (Option Pool)
  ca_pool cfg =
      let from_file : Exec State (Option Pool) = (do
        p ← wrapping "failed to read and parse %s certificate: " (net.new_pool cfg.ca_file)
        pure (some p)) in
      if not (cfg.ca_file == [])
      then from_file
      else if not (cfg.ca_file_contents == [])
      then parsed_pool (net.append_certs_from_pem cfg.ca_file_contents)
      else pure none

  abbrev pub with_roots :
      EdgecenterOpts → Option Pool → RoundTripper Transport → RoundTripper Transport
  with_roots cfg none t = t
  with_roots cfg (some p) t = plain (net.tls_transport p (cfg.tls_insecure == codes "true"))

  unfoldable pub client_opts : EdgecenterOpts → Str → List Str → ClientOpts
  client_opts cfg user_agent extra = record {
    api_key = cfg.api_token;
    base_url = cfg.api_url;
    region = cfg.region_id;
    project = cfg.project_id;
    user_agent = with_extra_agents extra (user_agent ++ (codes "/" ++ net.version));
  }

  unfoldable pub client_of :
      EdgecenterOpts
      → ClientOpts
      → Option (RoundTripper Transport)
      → Option Pool
      → HttpClient Transport
  client_of cfg opts left pool = record {
    made_with = opts;
    transport = instrumented (with_roots cfg pool (or_default_transport left));
    timeout = pos 0;
  }

  unfoldable pub new_edgecenter_client :
      EdgecenterOpts → Str → List Str → Exec State (HttpClient Transport)
  unfolding client_opts client_of
  new_edgecenter_client cfg user_agent extra =
      let opts = client_opts cfg user_agent extra in
      let create : Exec State (HttpClient Transport) = (do
        left ← wrapping "failed to create edgecenter client: " (net.new_with_retries opts)
        pool ← ca_pool cfg
        pure (client_of cfg opts left pool)) in
      if cfg.api_token == [] then fail (failure "token is not set in configuration") else create

  -- The checked object.
  unfoldable pub accepted :
      Edgecenter (HttpClient Transport)
      → Outcome (Unit {0})
      → Outcome (Edgecenter (HttpClient Transport))
  accepted gcr (ok _) = ok gcr
  accepted gcr (err e) = err e
  accepted gcr panic = panic

  -- NewEdgecenter
  unfoldable pub new_edgecenter :
      List Str → ProviderConfig → Exec State (Edgecenter (HttpClient Transport))
  unfolding accepted
  new_edgecenter extra cfg = do
    made ← new_edgecenter_client cfg.edgecenter (codes "edgecenter-cloud-controller-manager") extra
    let gcr : Edgecenter (HttpClient Transport) = record {
      client = record made { timeout = cfg.metadata.request_timeout };
      region = cfg.edgecenter.region;
      cfg = cfg;
      lb_opts = cfg.load_balancer;
      bs_opts = cfg.block_storage;
      route_opts = cfg.route;
      metadata_opts = cfg.metadata;
      networking_opts = cfg.networking;
    }
    lift (accepted gcr (check_edgecenter_opts gcr))
