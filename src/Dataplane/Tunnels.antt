-- ===== src/Dataplane/Tunnels.antt =====
-- The tunnel between the VRFs of two subnets: `createSubnetToSubnetTunnels` of
-- daemon/pkg/dataplane/vrf/software_linux.go, with the addresses of its ends. An address that the
-- allocator returns as nil, which `AddrAdd` refuses, is an error here. The state holds what `Software`
-- changes when VRFs are made.
use iml.Common.{ℕ, Bool, List, Option, none, some}
use iml.Common.Maps.{Map}
use iml.Common.Results.{ok, err}
use iml.Common.Texts.{Text}
use iml.Dataplane.Parsing.{DualStack}
use iml.Dataplane.Kernel.{
  Ip, IpNet, Request, Kernel, Action, Asking, pure, deferred, logged, when_some, ◌>>=◌, ◌>>◌, ask,
  look_up, no_name, no_address, add_veth, link_set_master, addr_add, link_set_up,
}
use iml.Dataplane.Alloc.{
  Iplib, SubnetAllocator, TableAllocator, allocate_subnet, new_ip_allocator, allocate_ip,
  allocate_table,
}
use iml.Dataplane.TargetVrf.{TargetVrf, add_ct_zone_rule, remove_ct_zone_rule}

-- `subnetTunData` of both ends, with the addresses as the tunnel's ends get them.
pub record Tunnel : Type 0 where
  pub name_1 : Text
  pub name_2 : Text
  pub addrs_1 : DualStack (Ip × ℕ)
  pub addrs_2 : DualStack (Ip × ℕ)

module _ (lib : Iplib) where
  -- The fields of `Software` that the functions change, and the requests made.
  pub record Fabric : Type 0 where
    pub p4_target_vrfs : Map ℕ TargetVrf
    pub table_allocator : TableAllocator
    pub tun_net4_allocator : Option (SubnetAllocator lib)
    pub tun_net6_allocator : SubnetAllocator lib
    pub asked : List Request

  unfoldable pub on_kernel : {A : Type 0} → Asking A → Action Fabric A
  on_kernel m d = let o = m d.asked in (o.0, record d { asked = o.1 })

  -- The addresses of the two ends out of a network: two calls of a new allocator.
  unfoldable pub two_addresses : IpNet → Option ((Ip × ℕ) × (Ip × ℕ))
  two_addresses net = elim (new_ip_allocator lib (some net)) [
    | err e ↦ none
    | ok a ↦
        let (r, b) = allocate_ip lib a in
        let (s, c) = allocate_ip lib b in
        elim r [
          | err e ↦ none
          | ok (none, n) ↦ none
          | ok (some x, n) ↦ elim s [
            | err e ↦ none
            | ok (none, k) ↦ none
            | ok (some y, k) ↦ some ((x, n), (y, k))
          ]
        ]
  ]

  -- A network of each family and the two addresses out of it; no IPv4 where there is no allocator.
  unfoldable pub tunnel_addresses_4 : Action Fabric (Option ((Ip × ℕ) × (Ip × ℕ)))
  tunnel_addresses_4 d = elim d.tun_net4_allocator [
    | none ↦ (ok none, d)
    | some sa ↦
        let o = allocate_subnet lib sa in
        let e = record d { tun_net4_allocator = some o.1 } in
        elim o.0 [
          | err x ↦ (err no_address, e)
          | ok n ↦ elim (two_addresses n) [ none ↦ (err no_address, e) | some p ↦ (ok (some p), e) ]
        ]
  ]

  unfoldable pub tunnel_addresses_6 : Action Fabric ((Ip × ℕ) × (Ip × ℕ))
  tunnel_addresses_6 d =
      let o = allocate_subnet lib d.tun_net6_allocator in
      let e = record d { tun_net6_allocator = o.1 } in
      elim o.0 [
        | err x ↦ (err no_address, e)
        | ok n ↦ elim (two_addresses n) [ none ↦ (err no_address, e) | some p ↦ (ok p, e) ]
      ]

  unfoldable pub next_table : Action Fabric ℕ
  next_table d =
      let o = allocate_table d.table_allocator in (ok o.0, record d { table_allocator = o.1 })

  module _ (kernel : Kernel) where
    -- `GenerateRandomName`, by the number of the call since the last request.
    unfoldable pub random_name : ℕ → Asking Text
    random_name call asked =
        (elim (kernel.random asked call) [ none ↦ err no_name | some n ↦ ok n ], asked)

    -- `createSubnetToSubnetTunnels` up to the calls of `SetTunnel`, between two VRFs.
    unfoldable pub create_ends : Text → Text → Action Fabric Tunnel
    create_ends vrf_1 vrf_2 = do
      name_1 ← on_kernel (random_name 0)
      name_2 ← on_kernel (random_name 1)
      four ← tunnel_addresses_4
      six ← tunnel_addresses_6
      on_kernel (look_up kernel vrf_1)
      on_kernel (look_up kernel vrf_2)
      on_kernel (ask kernel (add_veth name_1 name_2))
      pure (record {
        name_1 = name_1;
        name_2 = name_2;
        addrs_1 = record {
          ipv4 = elim four [ none ↦ none | some p ↦ some p.0 ];
          ipv6 = some six.0;
        };
        addrs_2 = record {
          ipv4 = elim four [ none ↦ none | some p ↦ some p.1 ];
          ipv6 = some six.1;
        };
      })

    -- The rest of it, on the two ends, with the tables of the two VRFs.
    unfoldable pub connect : Bool → Text → ℕ → Text → ℕ → Tunnel → Asking (Unit {0})
    connect with_ip4t vrf_1 table_1 vrf_2 table_2 t = do
      look_up kernel t.name_2
      ask kernel (link_set_master t.name_1 vrf_1)
      ask kernel (link_set_master t.name_2 vrf_2)
      deferred
          (do
            add_ct_zone_rule kernel with_ip4t t.name_1 table_1
            add_ct_zone_rule kernel with_ip4t t.name_2 table_2
            when_some t.addrs_1.ipv6 (λ a. ask kernel (addr_add t.name_1 a.0 a.1))
            when_some t.addrs_2.ipv6 (λ a. ask kernel (addr_add t.name_2 a.0 a.1))
            when_some t.addrs_1.ipv4 (λ a. ask kernel (addr_add t.name_1 a.0 a.1))
            when_some t.addrs_2.ipv4 (λ a. ask kernel (addr_add t.name_2 a.0 a.1))
            ask kernel (link_set_up t.name_1)
            ask kernel (link_set_up t.name_2))
          (do
            logged (remove_ct_zone_rule kernel with_ip4t t.name_1 table_1)
            logged (remove_ct_zone_rule kernel with_ip4t t.name_2 table_2))
