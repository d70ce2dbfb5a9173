-- ===== src/Tests/Provider.antt =====
-- The provider object made of a small configuration, and a rounded size.
use edgecenter_ccm.Prelude.{
  ◌≡◌, refl, ℕ, ℤ, Str, none, some, true, false, codes, str_eq, int_eq, nat_eq, pos, Outcome, ok,
  [], ◌↔◌, ◌+◌, ◌*◌, ◌^◌, ◌<◌, ◌≤◌, arith, split, trim_space,
}
use edgecenter_ccm.Provider.Config.{ProviderConfig, read_config, with_defaults}
use edgecenter_ccm.Provider.Options.{Edgecenter, check_edgecenter_opts, check_config_search_order}
use edgecenter_ccm.Provider.Create.{
  Networking, HttpClient, client_of, client_opts, new_edgecenter, new_edgecenter_client, ca_pool,
}
use edgecenter_ccm.Volumes.Size.{round_up_size_int}
use edgecenter_ccm.Volumes.Size.Bounds.{round_up_size_int-Covers}

-- A token and a monitor, and nothing else
abbrev raw_config : ProviderConfig
raw_config = record {
  load_balancer = record {
    lb_version = [];
    use_octavia = false;
    subnet_id = [];
    network_id = [];
    floating_network_id = [];
    floating_subnet_id = [];
    lb_classes = none;
    lb_method = [];
    lb_provider = [];
    create_monitor = true;
    monitor_delay = pos 5;
    monitor_timeout = pos 3;
    monitor_max_retries = 2;
    manage_security_groups = false;
    node_security_group_ids = none;
    internal_lb = false;
  };
  load_balancer_class = none;
  block_storage = record { bs_version = []; trust_device_path = false; ignore_volume_az = false };
  route = record { router_id = [] };
  metadata = record { search_order = []; request_timeout = pos 0 };
  networking = record {
    ipv6_support_disabled = false;
    public_network_name = [];
    internal_network_name = [];
  };
  edgecenter = record {
    api_url = codes "https://api";
    project_id = pos 1;
    region_id = pos 2;
    api_token = codes "token";
    cluster_id = [];
    no_billing_tag = false;
    region = codes "region";
    ca_file = [];
    tls_insecure = [];
    ca_file_contents = [];
  };
}

abbrev pub parse_config : Str → Outcome ProviderConfig
parse_config text = ok raw_config

read : read_config parse_config (some []) ≡ ok (with_defaults raw_config)
unfolding read_config
read = refl

-- Transports and certificates are numbers.
abbrev pub offline : Networking ℕ
offline = record {
  Transport = ℕ;
  Pool = ℕ;
  default_transport = 0;
  new_with_retries = λ opts n. (ok none, n);
  new_pool = λ path n. (ok 1, n);
  append_certs_from_pem = λ text. none;
  tls_transport = λ pool skip. 2;
  version = codes "1";
}

abbrev filled : ProviderConfig
unfolding with_defaults
filled = with_defaults raw_config

abbrev made_object : Edgecenter (HttpClient ℕ)
made_object = record {
  client =
      record (client_of offline filled.edgecenter
        (client_opts offline filled.edgecenter (codes "edgecenter-cloud-controller-manager") [])
        none none) { timeout = filled.metadata.request_timeout };
  region = codes "region";
  cfg = filled;
  lb_opts = filled.load_balancer;
  bs_opts = filled.block_storage;
  route_opts = filled.route;
  metadata_opts = filled.metadata;
  networking_opts = filled.networking;
}

created : new_edgecenter offline [] filled 0 ≡ (ok made_object, 0)
unfolding new_edgecenter new_edgecenter_client str_eq filled codes ca_pool check_edgecenter_opts
    int_eq nat_eq check_config_search_order split trim_space
created = refl

-- 1500 MiB in GiB, where int has 64 bits
round_up_size_int-Covers_example :
    (q : ℕ) × (1572864000 ≤ q * 1073741824)
    × (q * 1073741824 < 1572864000 + 1073741824)
    × ((round_up_size_int 64 (pos 1572864000) 1073741824 ≡ ok (pos q)) ↔ (q < 2 ^ 63))
    × ((r : ℤ) → round_up_size_int 64 (pos 1572864000) 1073741824 ≡ ok r → r ≡ pos q)
round_up_size_int-Covers_example = round_up_size_int-Covers 63 1572864000 1073741824 (omega arith)
