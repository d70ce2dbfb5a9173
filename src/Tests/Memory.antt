-- ===== src/Tests/Memory.antt =====
-- A cloud that holds load balancers, listeners and pools in lists. Whatever the tests do not use
-- fails. A pool that is updated has its new members at once, and every load balancer is active.
use edgecenter_ccm.Prelude.{
  ℕ, ◌+◌, Str, Option, none, some, true, not, List, [], ◌∷◌, ◌++◌, map, find, filter, any, ◌==◌,
  str_eq, if◌then◌else◌, decimal, codes, Err, api, Outcome, ok, err, Exec,
}
use edgecenter_ccm.Cloud.Types.{
  Loadbalancer, Listener, ListenerCreate, Pool, PoolCreate, PoolMember, MemberCreate, active,
}
use edgecenter_ccm.Cloud.Client.{Client}
use edgecenter_ccm.Cloud.Wait.{run_backoff}

pub record World : Type 0 where
  pub loadbalancers : List (Loadbalancer Str)
  pub listeners : List Listener
  pub pools : List (Pool Str)
  pub next_id : ℕ

abbrev pub missing : Err
missing = api []

abbrev unused : {A : Type 0} → Exec World A
unused w = (err missing, w)

abbrev or_missing : {A : Type 0} → Option A → World → Outcome A × World
or_missing none w = (err missing, w)
or_missing (some a) w = (ok a, w)

abbrev fresh_id : World → Str
fresh_id w = codes "id-" ++ decimal w.next_id

abbrev new_listener : Str → ListenerCreate → Listener
new_listener id req = record {
  id = id;
  name = req.name;
  protocol = req.protocol;
  protocol_port = req.protocol_port;
  secret_id = req.secret_id;
  timeout_client_data = req.timeout_client_data;
  timeout_member_data = req.timeout_member_data;
  timeout_member_connect = req.timeout_member_connect;
}

abbrev new_pool : Str → PoolCreate → Pool Str
new_pool id req = record {
  id = id;
  name = req.name;
  protocol = req.protocol;
  algorithm = req.algorithm;
  persistence = req.persistence;
  listeners = req.listener_id ∷ [];
  members = [];
}

abbrev new_member : MemberCreate Str → PoolMember Str
new_member m = record {
  id = [];
  address = m.address;
  protocol_port = m.protocol_port;
  subnet_id = m.subnet_id;
}

abbrev with_members : Str → List (MemberCreate Str) → Pool Str → Pool Str
with_members id members p = if p.id == id then record p { members = map new_member members } else p

abbrev nonempty : Str → Option Str
nonempty [] = none
nonempty (x ∷ s) = some (x ∷ s)

abbrev pub memory : Client
memory = record {
  State = World;
  IP = Str;
  ip = record { parse = nonempty; text = λ s. s; is_ipv4 = λ s. true; parse_cidr = nonempty };
  loadbalancers = record {
    list = λ w. (ok w.loadbalancers, w);
    get = λ id w. or_missing (find (λ lb. lb.id == id) w.loadbalancers) w;
    is_exist = λ id w. (ok (any (λ lb. lb.id == id) w.loadbalancers), w);
    create = λ req w. (
      ok (fresh_id w ∷ []),
      record w {
        next_id = w.next_id + 1;
        loadbalancers =
            record {
              id = fresh_id w;
              name = req.name;
              provisioning_status = active;
              vip_address = some (codes "10.0.0.2");
              vip_port_id = codes "port";
            }
            ∷ w.loadbalancers;
      },
    );
    delete = λ id w.
        (ok tt, record w { loadbalancers = filter (λ lb. not (lb.id == id)) w.loadbalancers });
    listener_list = λ lb w. (ok w.listeners, w);
    listener_get = λ id w. or_missing (find (λ ln. ln.id == id) w.listeners) w;
    listener_is_exist = λ id w. (ok (any (λ ln. ln.id == id) w.listeners), w);
    listener_create = λ req w. (
      ok (fresh_id w ∷ []),
      record w { next_id = w.next_id + 1; listeners = new_listener (fresh_id w) req ∷ w.listeners },
    );
    listener_update = λ id req w. (ok tt, w);
    listener_delete = λ id w.
        (ok (id ∷ []), record w { listeners = filter (λ ln. not (ln.id == id)) w.listeners });
    pool_list = λ lb ln w. (ok w.pools, w);
    pool_get = λ id w. (ok (find (λ p. p.id == id) w.pools), w);
    pool_is_exist = λ id w. (ok (any (λ p. p.id == id) w.pools), w);
    pool_create = λ req w. (
      ok (fresh_id w ∷ []),
      record w { next_id = w.next_id + 1; pools = new_pool (fresh_id w) req ∷ w.pools },
    );
    pool_update =
        λ id req w. (ok tt, record w { pools = map (with_members id req.members) w.pools });
    pool_delete = λ id w. (ok tt, record w { pools = filter (λ p. not (p.id == id)) w.pools });
    member_create = λ pool req. unused;
    member_delete = λ pool id. unused;
  };
  floatingips = record {
    list = unused;
    list_by_port = λ port w. (ok [], w);
    get = λ id w. (ok (record { id = id; address = codes "203.0.113.5" }), w);
    create = λ port w. (ok (codes "fip" ∷ []), w);
    assign = λ id port. unused;
    delete = λ id. unused;
  };
  security_groups = record {
    list = unused;
    get = λ id. unused;
    create = λ name. unused;
    delete = λ id. unused;
    rule_create = λ id req. unused;
  };
  instances = record {
    list = λ name. unused;
    get = λ id. unused;
    is_exist = λ id. unused;
    interface_list = λ id. unused;
    security_group_list = λ id. unused;
    filter_by_security_group = λ id. unused;
    security_group_assign = λ id group ports. unused;
    security_group_unassign = λ id group. unused;
  };
  volumes = record {
    get = λ id. unused;
    create = λ name size kind. unused;
    delete = λ id. unused;
    extend = λ id size. unused;
    wait_for_task = λ id. unused;
    attach = λ id instance. unused;
    detach = λ id instance. unused;
  };
  networks_list = unused;
  subnet_cidr = λ id. unused;
  clusters_base_path = codes "/mkaas/v2/clusters";
  Request = Str × Str;
  new_request = λ method path id w. (ok (path, id), w);
  do_request = λ req w. (ok (codes "tech-" ++ req.1), w);
  backoff = run_backoff;
  backoff_with_context = run_backoff;
  default_load_balancer_name = λ svc. codes "a" ++ svc.uid;
  rule_protocol_is_valid = λ p. true;
  volume_type_is_valid = λ p. true;
  foreign_text = λ k. [];
}
