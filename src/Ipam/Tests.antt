-- ===== src/Ipam/Tests.antt =====
-- pkg/ipam over 10.0.0.0/29 and 10.0.0.0/24, and the theorems at these inputs.
use iml.Common.{
  ℕ, ◌+◌, ◌-◌, ◌*◌, ◌^◌, ◌≡◌, refl, none, some, ℕ_discrete, List, [], ◌∷◌, true, arith, ite,
}
use iml.Common.Results.{ok, err}
use iml.Ipam.Netip.{Addr, ip, v4, v6, Prefix, prefix, Addr-discrete}
use iml.Ipam.Network.{IsNetwork}
use iml.Ipam.Broadcast.{broadcast_addr}
use iml.Ipam.Broadcast.Laws.{broadcast_v4}
use iml.Ipam.Allocator.{next_prefix, exhausted}
use iml.Ipam.Allocator.Laws.{prefixes_after}
use iml.Ipam.Pool.{
  AddrPool, new_addr_pool, assign, release, allocate, reserve, scan, is_free, contains, next,
  pool_exhausted,
}
use iml.Ipam.Pool.Allocation.{IsValid}
use iml.Ipam.Pool.Contract.{
  run_unique, allocate_ok, allocate_free, allocate_error, release_addrs, release-allocate,
}
use iml.Ipam.Pool.Runs.{
  Call, allocate_call, reserve_call, step, run, run-IsValid, new_addr_pool-IsValid,
}

abbrev ten : ℕ
ten = 10 * 2 ^ 24

abbrev base : Prefix
base = prefix v4 ten 29

abbrev start : AddrPool ℕ
start = record { base = base; owners = λ a. none; addrs = λ o. none; last = ip v4 ten }

program : Unit {0}
unfolding allocate reserve release assign scan is_free contains next broadcast_addr step run
    ℕ_discrete Addr-discrete new_addr_pool
program = tt

new_runs : new_addr_pool base ≡ ok start
unfolding program
new_runs = refl

start-IsValid : IsValid start
start-IsValid = new_addr_pool-IsValid base new_runs

-- 10.0.0.1 to 10.0.0.6 are handed out; the seventh owner gets none.
abbrev full : List (Call ℕ)
full =
    allocate_call 1
    ∷ allocate_call 2
    ∷ reserve_call (ip v4 (ten + 5)) 3
    ∷ allocate_call 4
    ∷ allocate_call 5
    ∷ allocate_call 6
    ∷ []

abbrev two : List (Call ℕ)
two = allocate_call 1 ∷ allocate_call 2 ∷ []

full_pool : (allocate ℕ_discrete (run ℕ_discrete start full) 7).1 ≡ err pool_exhausted
unfolding program
full_pool = refl

after_two : (allocate ℕ_discrete (run ℕ_discrete start two) 7).1 ≡ ok (ip v4 (ten + 3))
unfolding program
after_two = refl

two-IsValid : IsValid (run ℕ_discrete start two)
two-IsValid = run-IsValid ℕ_discrete start two start-IsValid

run_unique_example :
    (◌≡◌ {A = ℕ} 2 2) × (contains (run ℕ_discrete start two).base (ip v4 (ten + 2)) ≡ true)
unfolding program
run_unique_example = run_unique ℕ_discrete base start two 2 2 (ip v4 (ten + 2)) new_runs refl refl

allocate_ok_example :
    ((q : ℕ)
      → (allocate ℕ_discrete (run ℕ_discrete start two) 7).0.addrs q
        ≡ ite (ℕ_discrete q 7) (some (ip v4 (ten + 3))) ((run ℕ_discrete start two).addrs q))
    × ((allocate ℕ_discrete (run ℕ_discrete start two) 7).0.owners (ip v4 (ten + 3)) ≡ some 7)
    × (contains (run ℕ_discrete start two).base (ip v4 (ten + 3)) ≡ true)
allocate_ok_example =
    allocate_ok ℕ_discrete (run ℕ_discrete start two) 7 (ip v4 (ten + 3)) two-IsValid after_two

allocate_free_example :
    (b : Addr) × ((allocate ℕ_discrete (run ℕ_discrete start two) 7).1 ≡ ok b)
    × ((run ℕ_discrete start two).owners b ≡ none)
    × (contains (run ℕ_discrete start two).base b ≡ true)
unfolding program
allocate_free_example =
    allocate_free ℕ_discrete (run ℕ_discrete start two) 7 (ip v4 (ten + 6)) two-IsValid refl refl
      refl refl

allocate_error_example :
    (pool_exhausted ≡ pool_exhausted)
    × ((allocate ℕ_discrete (run ℕ_discrete start full) 7).0 ≡ run ℕ_discrete start full)
allocate_error_example =
    allocate_error ℕ_discrete (run ℕ_discrete start full) 7 pool_exhausted
      (run-IsValid ℕ_discrete start full start-IsValid) full_pool

release-allocate_example :
    (b : Addr) × ((allocate ℕ_discrete (release ℕ_discrete (run ℕ_discrete start full) 3) 7).1
      ≡ ok b)
unfolding program
release-allocate_example =
    release-allocate ℕ_discrete (run ℕ_discrete start full) 3 (ip v4 (ten + 5)) 7
      (run-IsValid ℕ_discrete start full start-IsValid) refl refl refl

release_addrs_example :
    (release ℕ_discrete (run ℕ_discrete start two) 2).addrs 1
    ≡ ite (ℕ_discrete 1 2) none ((run ℕ_discrete start two).addrs 1)
release_addrs_example = release_addrs ℕ_discrete (run ℕ_discrete start two) 2 1

abbrev wide : IsNetwork (prefix v4 ten 24)
wide = (omega arith, refl, omega arith)

broadcast_v4_example : broadcast_addr (prefix v4 ten 24) ≡ ip v4 (ten + 256 - 1)
broadcast_v4_example = broadcast_v4 ten 24 wide

-- The second /80 of ::/64 is not found: the broadcast address of ::/80 is unmapped to
-- 255.255.255.255, which has no next address.
stops_early : (next_prefix (prefixes_after v6 0 64 80 0)).1 ≡ err exhausted
unfolding next_prefix broadcast_addr
stops_early = refl
