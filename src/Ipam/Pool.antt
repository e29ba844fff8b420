-- ===== src/Ipam/Pool.antt =====
-- operator/pkg/ipam/pool.go: `AddrPool`, its methods as functions that return the new pool. A
-- method runs under the pool's mutex, so a call is one step.
pub mod Consistent
pub mod Scan
pub mod Allocation
pub mod Reservation
pub mod Runs
pub mod Contract
use iml.Common.{ℕ, zero, suc, Bool, true, false, not, ◌&&◌, ◌||◌, Option, none, some, if◌then◌else◌}
use iml.Common.Maps.{Map, empty, insert, delete}
use iml.Common.Results.{Result, ok, err}
use iml.Ipam.Netip.{
  Addr, Prefix, no_prefix, prefix, Addr-discrete, addr_eq, prefix_eq, is4, addr_is_valid, next_addr,
  unmap, prefix_addr, block, prefix_is_valid, masked, prefix_contains,
}
use iml.Ipam.Broadcast.{broadcast_addr}

pub data PoolError : Type 0 where
  invalid_base not_masked pool_exhausted not_available already_assigned out_of_fuel : PoolError

-- The owners are any comparable type: `types.NamespacedName` in the program.
pub record AddrPool (Owner : Type 0) : Type 0 where
  pub base : Prefix
  pub owners : Map Addr Owner
  pub addrs : Map Owner Addr
  pub last : Addr

unfoldable pub new_addr_pool : {Owner : Type 0} → Prefix → Result PoolError (AddrPool Owner)
new_addr_pool base =
    if not (prefix_is_valid base)
    then err invalid_base
    else if not (prefix_eq base (masked base))
    then err not_masked
    else ok (record { base = base; owners = empty; addrs = empty; last = prefix_addr base })

-- `Contains` and `next` read only the pool's prefix.
unfoldable pub contains : Prefix → Addr → Bool
contains base addr =
    let a = unmap addr in
    if not (prefix_contains base a) || addr_eq a (prefix_addr base)
    then false
    else not (is4 a) || not (addr_eq a (broadcast_addr base))

unfoldable pub next : Prefix → Addr → Addr
next base addr =
    let n = next_addr addr in
    if addr_is_valid n && prefix_contains base n then n else prefix_addr base

abbrev pub is_none {ℓ} : {A : Type ℓ} → Option A → Bool
is_none none = true
is_none (some a) = false

abbrev pub rounds : Prefix → ℕ
rounds no_prefix = 0
rounds (prefix f n k) = block f k

module _ {Owner : Type 0} (dec : Discrete Owner) where
  unfoldable pub assign : AddrPool Owner → Addr → Owner → AddrPool Owner
  assign p addr owner = record p {
    owners = insert Addr-discrete addr owner p.owners;
    addrs = insert dec owner addr p.addrs;
  }

  unfoldable pub release : AddrPool Owner → Owner → AddrPool Owner
  release p owner = elim (p.addrs owner) [
    | none ↦ p
    | some addr ↦ record p {
      owners = delete Addr-discrete addr p.owners;
      addrs = delete dec owner p.addrs;
    }
  ]

  -- The test of the loop in `Allocate`.
  unfoldable pub is_free : AddrPool Owner → Addr → Bool
  is_free p addr = is_none (p.owners addr) && contains p.base addr

  -- The loop of `Allocate`: the first free address from `addr` on, until it is back at `start`.
  unfoldable pub scan : AddrPool Owner → ℕ → Addr → Addr → Result PoolError Addr
  scan p zero start addr = err out_of_fuel
  scan p (suc fuel) start addr =
      let more = scan p fuel start (next p.base addr) in
      if is_free p addr
      then ok addr
      else if addr_eq (next p.base addr) start
      then err pool_exhausted
      else more

  -- A prefix has `rounds` addresses, so that the loop is back at `start` within as many rounds.
  unfoldable pub allocate : AddrPool Owner → Owner → AddrPool Owner × Result PoolError Addr
  allocate p owner = elim (p.addrs owner) [
    | some addr ↦ (p, ok addr)
    | none ↦
        let start = next p.base p.last in
        elim (scan p (rounds p.base) start start) [
          | ok addr ↦ (record (assign p addr owner) { last = addr }, ok addr)
          | err e ↦ (p, err e)
        ]
  ]

  unfoldable pub reserve : AddrPool Owner → Addr → Owner → AddrPool Owner × Option PoolError
  reserve p addr owner =
      let a = unmap addr in
      if not (contains p.base a) then (p, some not_available) else elim (p.owners a) [
        | some current ↦ elim (dec current owner) [
          | yes _ ↦ (p, none)
          | no _ ↦ (p, some already_assigned)
        ]
        | none ↦ (assign (release p owner) a owner, none)
      ]
