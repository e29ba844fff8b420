-- ===== src/Dataplane/Alloc.antt =====
-- The allocators of networks, addresses and routing tables: daemon/pkg/dataplane/alloc.go. Package
-- iplib is a parameter, at the family of the allocator. The mutexes are left out: each call is one
-- step.
use iml.Common.{
  ℕ, suc, ◌+◌, ◌-◌, ◌%◌, ◌^◌, ◌==◌, ltb, leb, not, ◌||◌, Bool, true, false, Option, none, some,
  List, [], ◌∷◌, if◌then◌else◌,
}
use iml.Common.Results.{Result, ok, err}
use iml.Dataplane.Kernel.{Ip, IpNet}
pub mod Tables

-- What the allocators use of iplib's Net4 or Net6 and of net: `NewNet4(ip, prefix)` or
-- `NewNet6(ip, prefix, 0)`, `NextNet`, the field `IPNet`, `IP`, `NextIP` with its address, which may
-- be nil, and whether it fails, and `Contains`. `valid` is the test of the family on the base network.
pub record Iplib : Type 1 where
  pub Net : Type 0
  pub new_net : Ip → ℕ → Net
  pub net_after : Net → ℕ → Net
  pub ip_net : Net → IpNet
  pub first_ip : Net → Ip
  pub ip_after : Net → Ip → Option Ip × Bool
  pub contains : IpNet → Ip → Bool
  pub valid : IpNet → Bool
  pub max_prefix : ℕ

pub data AllocError : Type 0 where
  nil_network wrong_family bad_prefix exhausted : AllocError
  bad_table : ℕ → AllocError

module _ (lib : Iplib) where
  pub record SubnetAllocator : Type 0 where
    pub base_net : IpNet
    pub last : Option lib.Net
    pub prefix : ℕ

  -- `NewSubnet4Allocator` and `NewSubnet6Allocator`; a prefix below 0 is refused as 0 is.
  unfoldable pub new_subnet_allocator : Option IpNet → ℕ → Result AllocError SubnetAllocator
  new_subnet_allocator none prefix = err nil_network
  new_subnet_allocator (some base) prefix =
      if not (lib.valid base)
      then err wrong_family
      else if prefix == 0 || ltb lib.max_prefix prefix
      then err bad_prefix
      else ok (record { base_net = base; last = none; prefix = prefix })

  -- The network that `Allocate` of a SubnetAllocator tries.
  abbrev pub next_subnet : SubnetAllocator → lib.Net
  next_subnet sa = elim sa.last [
    | none ↦ lib.new_net sa.base_net.ip sa.prefix
    | some l ↦ lib.net_after l sa.prefix
  ]

  unfoldable pub allocate_subnet : SubnetAllocator → Result AllocError IpNet × SubnetAllocator
  allocate_subnet sa =
      let subnet = next_subnet sa in
      if not (lib.contains sa.base_net (lib.ip_net subnet).ip)
      then (err exhausted, sa)
      else (ok (lib.ip_net subnet), record sa { last = some subnet })

  pub record IpAllocator : Type 0 where
    pub net : lib.Net
    pub last_ip : Option Ip

  -- `NewIPv4Allocator` and `NewIPv6Allocator`.
  unfoldable pub new_ip_allocator : Option IpNet → Result AllocError IpAllocator
  new_ip_allocator none = err nil_network
  new_ip_allocator (some base) =
      if not (lib.valid base)
      then err wrong_family
      else ok (record { net = lib.new_net base.ip base.ones; last_ip = none })

  -- `Allocate`: the error of the first `NextIP` is not looked at. The mask is that of the base.
  unfoldable pub allocate_ip : IpAllocator → Result AllocError (Option Ip × ℕ) × IpAllocator
  allocate_ip a =
      let ones = (lib.ip_net a.net).ones in
      elim a.last_ip [
        | none ↦
            let (ip, failed) = lib.ip_after a.net (lib.first_ip a.net) in
            (ok (ip, ones), record a { last_ip = ip })
        | some last ↦
            let (ip, failed) = lib.ip_after a.net last in
            if failed then (err exhausted, a) else (ok (ip, ones), record a { last_ip = ip })
      ]

pub record TableAllocator : Type 0 where
  pub first_table_id : ℕ
  pub last_assigned : ℕ

-- `NewTableAllocator`, of a uint32.
unfoldable pub new_table_allocator : ℕ → Result AllocError TableAllocator
new_table_allocator first =
    if leb first 255
    then err (bad_table first)
    else ok (record { first_table_id = first; last_assigned = first - 1 })

-- `lastAssigned++` wraps around.
unfoldable pub allocate_table : TableAllocator → ℕ × TableAllocator
allocate_table ta = let n = (ta.last_assigned + 1) % 2 ^ 32 in (n, record ta { last_assigned = n })
