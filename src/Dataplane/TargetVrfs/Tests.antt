-- ===== src/Dataplane/TargetVrfs/Tests.antt =====
-- VRFs of targets, with a kernel that accepts every request and allocators that count.
use iml.Common.{
  ℕ, ◌+◌, ◌<◌, ◌≡◌, ◌≢◌, refl, true, false, none, some, [], ◌∷◌, ℕ_discrete, ite, arith,
}
use iml.Common.Results.{ok}
use iml.Dataplane.Parsing.{DualStack}
use iml.Dataplane.Kernel.{IpNet, Kernel}
use iml.Dataplane.Alloc.{Iplib, TableAllocator, new_table_allocator}
use iml.Dataplane.Alloc.Tables.{table_of, table_of_distinct}
use iml.Dataplane.TargetVrf.{TargetVrf}
use iml.Dataplane.Tunnels.{Fabric}
use iml.Dataplane.TargetVrfs.{
  Settings, TargetVrfInfo, ensure_vrf_of, remove_p4_target_vrf, link_exists, target_vrf_info,
}
use iml.Dataplane.TargetVrfs.Ensured.{Ensures, ensure_vrf_of-Ensures}
use iml.Dataplane.TargetVrfs.Repeated.{ensure_vrf_of-again}

abbrev accepting : Kernel
accepting = record {
  link_by_name = λ asked name. ok (record { name = name; index = 4; master = 0; physical = false });
  link_list = λ asked. some [];
  routes_of = λ asked six table. some [];
  random = λ asked n. some (n ∷ []);
  perform = λ asked q. none;
}

-- Networks and addresses of one number.
abbrev counting : Iplib
counting = record {
  Net = ℕ;
  new_net = λ ip prefix. 16;
  net_after = λ n prefix. n + 4;
  ip_net = λ n. record { ip = n ∷ []; ones = 126 };
  first_ip = λ n. n ∷ [];
  ip_after = λ n ip. (some ((n + 1) ∷ []), false);
  contains = λ net ip. true;
  valid = λ net. true;
  max_prefix = 128;
}

abbrev settings : Settings
settings = record {
  routing = record {
    target_network = record { ip = 1 ∷ []; ones = 96 };
    gateway = 1 ∷ [];
    vrf = 7 ∷ [];
    table = 1000;
    bridge = 8 ∷ [];
    decap_sid_v4 = record { ip = 2 ∷ []; ones = 96 };
    decap_sid_v6 = record { ip = 3 ∷ []; ones = 96 };
  };
  with_ip4t = false;
  net_string = λ n. n.ip;
  vrf_table = λ l. some 1001;
}

abbrev tables : TableAllocator
tables = record { first_table_id = 1000; last_assigned = 1000 }

abbrev cidr : DualStack IpNet
cidr = record { ipv4 = none; ipv6 = some (record { ip = 9 ∷ []; ones = 96 }) }

abbrev kept_vrf : TargetVrf
kept_vrf = record {
  nf_cidr = cidr;
  vrf = 5 ∷ [];
  table = 1001;
  tunnel = 6 ∷ [];
  tunnel_addrs = record { ipv4 = none; ipv6 = some (1 ∷ []) };
  router_tunnel = 4 ∷ [];
  router_tunnel_addrs = record { ipv4 = none; ipv6 = some (2 ∷ []) };
}

abbrev fabric : Fabric counting
fabric = record {
  p4_target_vrfs = λ k. ite (ℕ_discrete k 3) (some kept_vrf) none;
  table_allocator = tables;
  tun_net4_allocator = none;
  tun_net6_allocator = record {
    base_net = record { ip = 16 ∷ []; ones = 64 };
    last = none;
    prefix = 126;
  };
  asked = [];
}

table_of_distinct_example :
    (table_of 5 (record { first_table_id = 1000; last_assigned = 999 }) ≡ 1005)
    × ((255 < table_of 5 (record { first_table_id = 1000; last_assigned = 999 }))
        × (table_of 2 (record { first_table_id = 1000; last_assigned = 999 })
            ≢ table_of 5 (record { first_table_id = 1000; last_assigned = 999 })))
unfolding new_table_allocator
table_of_distinct_example =
    table_of_distinct 1000 5 2 (record { first_table_id = 1000; last_assigned = 999 }) refl
      (omega arith) (omega arith)

-- A VRF for another target.
ensure_vrf_of_example :
    Ensures counting accepting settings 4 cidr fabric
      (ensure_vrf_of counting accepting settings 4 cidr fabric)
ensure_vrf_of_example = ensure_vrf_of-Ensures counting accepting settings 4 cidr fabric

ensure_vrf_of-again_example :
    ensure_vrf_of counting accepting settings 3 cidr
      (ensure_vrf_of counting accepting settings 3 cidr fabric).1
    ≡ (ok (target_vrf_info kept_vrf), (ensure_vrf_of counting accepting settings 3 cidr fabric).1)
unfolding ensure_vrf_of target_vrf_info link_exists ℕ_discrete
    iml.Dataplane.TargetVrfs.same_dual_stack_network iml.Dataplane.TargetVrfs.ip_net_string
ensure_vrf_of-again_example =
    ensure_vrf_of-again counting accepting settings 3 cidr fabric (target_vrf_info kept_vrf) refl
      refl
