-- ===== src/P4Target/Manager.antt =====
-- p4target_mgr.go: the manager of a target. A method runs under the manager's lock, so that a call is
-- one step; the addresses of the bridge interface are part of the state. The answers of the P4Runtime
-- client are arguments.
use iml.Common.{ℕ, Bool, false, not, ◌||◌, Option, none, some, List, [], ◌∷◌, if◌then◌else◌, length}
use iml.Common.Int.{ℤ, pos, leb_ℤ, ltb_ℤ, ◌-ℤ◌, add64, i64}
use iml.Common.Results.{Result, ok, err}
use iml.Ipam.Netip.{Addr, Prefix, no_prefix, addr_eq, prefix_eq, masked}
use iml.Ipam.Allocator.{AddrAllocator, AllocError, new_addr_allocator, next_ip}
use iml.P4Target.Bridge.{Netlink, BridgeAddr, configure_nf_bridge}

pub data TargetError : Type 0 where
  no_name no_slots no_client invalid_cidr not_configured : TargetError
  no_allocator no_bridge_ip no_ip : AllocError → TargetError
  no_bridge : ℕ → TargetError

-- `allocated_ips` is a Go set, as a list without repetitions.
pub record Manager : Type 0 where
  pub max_nf_slots : ℤ
  pub has_bridge : Bool
  pub bridge : List BridgeAddr
  pub cidr : Prefix
  pub ip_allocator : Option AddrAllocator
  pub allocated_ips : List Addr

pub record ManagerConfig : Type 0 where
  pub named : Bool
  pub slots : ℤ
  pub has_client : Bool
  pub bridge_named : Bool

unfoldable pub new_manager : ManagerConfig → List BridgeAddr → Result TargetError Manager
new_manager cfg bridge =
    if not cfg.named
    then err no_name
    else if leb_ℤ cfg.slots (pos 0)
    then err no_slots
    else if not cfg.has_client
    then err no_client
    else ok (record {
      max_nf_slots = cfg.slots;
      has_bridge = cfg.bridge_named;
      bridge = bridge;
      cidr = no_prefix;
      ip_allocator = none;
      allocated_ips = [];
    })

abbrev pub has_addr : Addr → List Addr → Bool
has_addr a [] = false
has_addr a (b ∷ addrs) = addr_eq a b || has_addr a addrs

abbrev pub add_addr : Addr → List Addr → List Addr
add_addr a addrs = if has_addr a addrs then addrs else a ∷ addrs

abbrev pub bridge_error : Option ℕ → Option TargetError
bridge_error none = none
bridge_error (some e) = some (no_bridge e)

-- The manager with a bridge and a new allocator: the bridge gets the allocator's first address.
unfoldable pub set_up_bridge :
    Netlink → Manager → AddrAllocator × Result AllocError Addr → Manager × Option TargetError
unfolding configure_nf_bridge
set_up_bridge net m (alloc, err e) = (record m { ip_allocator = some alloc }, some (no_bridge_ip e))
set_up_bridge net m (alloc, ok a) =
    let (bridge, error) = configure_nf_bridge net m.bridge a m.cidr in
    (record m { ip_allocator = some alloc; bridge = bridge }, bridge_error error)

abbrev pub configured : Manager → Prefix → AddrAllocator → Manager
configured m cidr alloc = record m { cidr = cidr; ip_allocator = some alloc; allocated_ips = [] }

-- The rest of `EnsureNetworkConfiguration`, with the new allocator or its error.
unfoldable pub use_allocator :
    Netlink → Manager → Prefix → Result AllocError AddrAllocator → Manager × Option TargetError
unfolding next_ip set_up_bridge
use_allocator net m cidr (err e) = (m, some (no_allocator e))
use_allocator net m cidr (ok alloc) =
    if m.has_bridge
    then set_up_bridge net (configured m cidr alloc) (next_ip alloc)
    else (configured m cidr alloc, none)

-- The CIDR is given as `ParsePrefix` reads it.
unfoldable pub ensure_network_configuration :
    Netlink → Manager → Option Prefix → Manager × Option TargetError
unfolding new_addr_allocator use_allocator
ensure_network_configuration net m none = (m, some invalid_cidr)
ensure_network_configuration net m (some p) =
    let cidr = masked p in
    if prefix_eq m.cidr cidr then (m, none) else use_allocator net m cidr (new_addr_allocator cidr)

unfoldable pub record_ip :
    Manager → AddrAllocator × Result AllocError Addr → Manager × Result TargetError Addr
record_ip m (alloc, err e) = (record m { ip_allocator = some alloc }, err (no_ip e))
record_ip m (alloc, ok a) =
    (record m { ip_allocator = some alloc; allocated_ips = add_addr a m.allocated_ips }, ok a)

unfoldable pub allocate_network_function_ip : Manager → Manager × Result TargetError Addr
unfolding next_ip record_ip
allocate_network_function_ip m = elim m.ip_allocator [
  | none ↦ (m, err not_configured)
  | some alloc ↦ record_ip m (next_ip alloc)
]

-- The sizes of the tables of the pipeline, or none if there is no answer.
abbrev pub total_size : List ℤ → ℤ → ℤ
total_size [] total = total
total_size (size ∷ sizes) total = total_size sizes (add64 total size)

abbrev pub query_table_capacity : Option (List ℤ) → ℤ
query_table_capacity none = pos 0
query_table_capacity (some sizes) = total_size sizes (pos 0)

abbrev pub entities : List ℕ → List ℤ
entities [] = []
entities (n ∷ counts) = pos n ∷ entities counts

-- The numbers of entities of the messages that come before the stream ends.
abbrev pub query_table_used : Option (List ℕ) → ℤ
query_table_used none = pos 0
query_table_used (some counts) = total_size (entities counts) (pos 0)

pub record Resources : Type 0 where
  pub nf_slots : ℤ
  pub table_entries : Option ℤ

abbrev pub max_ℤ : ℤ → ℤ → ℤ
max_ℤ a b = if ltb_ℤ a b then b else a

unfoldable pub get_capacity : Manager → Option (List ℤ) → Resources
get_capacity m tables =
    let capacity = query_table_capacity tables in
    record {
      nf_slots = m.max_nf_slots;
      table_entries = if ltb_ℤ (pos 0) capacity then some capacity else none;
    }

-- The difference of slots fits an int64.
unfoldable pub get_allocatable : Manager → Option (List ℤ) → Option (List ℕ) → Resources
get_allocatable m tables used =
    let capacity = query_table_capacity tables in
    record {
      nf_slots = max_ℤ (m.max_nf_slots -ℤ pos (length m.allocated_ips)) (pos 0);
      table_entries =
          if ltb_ℤ (pos 0) capacity
          then some (max_ℤ (i64 (capacity -ℤ query_table_used used)) (pos 0))
          else none;
    }
