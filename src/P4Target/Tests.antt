-- ===== src/P4Target/Tests.antt =====
-- A target with two slots and a bridge, over 10.1.0.0/29.
use iml.Common.{ℕ, ◌+◌, ◌*◌, ◌^◌, ◌≡◌, refl, true, none, some, List, [], ◌∷◌, ◌++◌, ◌⊎◌}
use iml.Common.Int.{pos}
use iml.Common.Results.{ok}
use iml.Ipam.Netip.{ip, v4, v6, Prefix, prefix, masked}
use iml.P4Target.Bridge.{
  Netlink, BridgeAddr, configure_nf_bridge, staying, new_bridge_addr, configure_nf_bridge_lem,
}
use iml.P4Target.Manager.{
  Manager, ManagerConfig, new_manager, ensure_network_configuration, allocate_network_function_ip,
  no_bridge, get_allocatable,
}
use iml.P4Target.Conditions.{get_occupied_condition}
use iml.P4Target.Addresses.{Fresh, allocate_network_function_ip-Fresh}
use iml.P4Target.Runs.{Action, ensures, allocates, run}
use iml.P4Target.Configuration.{ensure_network_configuration_again}

abbrev network : ℕ
network = (10 * 256 + 1) * 2 ^ 16

-- The third address of the network is given, which stands for the whole of it.
abbrev cidr : Prefix
cidr = prefix v4 (network + 3) 29

abbrev link_local : BridgeAddr
link_local = record { addr = ip v6 (0xfe80 * 2 ^ 112 + 1); bits = 64 }

abbrev old : BridgeAddr
old = record { addr = ip v4 (10 * 2 ^ 24 + 1); bits = 24 }

abbrev works : Netlink
works = record { link_by_name = none; addr_list = none; addr_del = λ a. none; addr_add = λ a. none }

abbrev fails : Netlink
fails = record works { addr_add = λ a. some 5 }

abbrev config : ManagerConfig
config = record { named = true; slots = pos 2; has_client = true; bridge_named = true }

abbrev target : Manager
target = record {
  max_nf_slots = pos 2;
  has_bridge = true;
  bridge = link_local ∷ old ∷ [];
  cidr = Prefix.no_prefix;
  ip_allocator = none;
  allocated_ips = [];
}

program : Unit {0}
unfolding configure_nf_bridge staying new_manager ensure_network_configuration
    allocate_network_function_ip get_allocatable get_occupied_condition run
program = tt

new_manager_runs : new_manager config (link_local ∷ old ∷ []) ≡ ok target
unfolding program
new_manager_runs = refl

configured_runs :
    configure_nf_bridge works (link_local ∷ old ∷ []) (ip v4 (network + 1)) cidr
    ≡ (link_local ∷ record { addr = ip v4 (network + 1); bits = 29 } ∷ [], none)
unfolding program
configured_runs = refl

configure_nf_bridge_example :
    let r = configure_nf_bridge fails (link_local ∷ old ∷ []) (ip v4 (network + 1)) cidr in
    (r ≡ (staying (link_local ∷ old ∷ []) ++ new_bridge_addr (ip v4 (network + 1)) cidr ∷ [], none))
    ⊎ ((e : ℕ) × (r.1 ≡ some e) × (staying r.0 ≡ staying (link_local ∷ old ∷ [])))
configure_nf_bridge_example =
    configure_nf_bridge_lem fails (link_local ∷ old ∷ []) (ip v4 (network + 1)) cidr

-- One address is handed out before.
abbrev calls : List Action
calls = ensures works (some cidr) ∷ allocates ∷ []

abbrev before : Manager
before = run target calls

abbrev after : Manager
after = (allocate_network_function_ip before).0

allocate_runs : allocate_network_function_ip before ≡ (after, ok (ip v4 (network + 3)))
unfolding program
allocate_runs = refl

allocate_network_function_ip_example : Fresh before after (ip v4 (network + 3))
allocate_network_function_ip_example =
    allocate_network_function_ip-Fresh config (link_local ∷ old ∷ []) target calls after
      (ip v4 (network + 3)) new_manager_runs allocate_runs

abbrev failed : Manager
failed = (ensure_network_configuration fails target (some cidr)).0

failed_runs : ensure_network_configuration fails target (some cidr) ≡ (failed, some (no_bridge 5))
unfolding program
failed_runs = refl

same_network : masked (prefix v4 network 29) ≡ masked cidr
same_network = refl

ensure_network_configuration_again_example :
    ensure_network_configuration works failed (some (prefix v4 network 29)) ≡ (failed, none)
ensure_network_configuration_again_example =
    ensure_network_configuration_again fails works target failed cidr (prefix v4 network 29)
      (some (no_bridge 5)) failed_runs refl same_network
