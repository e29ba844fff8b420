-- ===== src/Ipam/Pool/Allocation.antt =====
-- operator/pkg/ipam/pool.go: what `Allocate`, `Reserve` and `Release` return and change.
use iml.Common.{ℕ, ◌≡◌, ◌≢◌, refl, ◌⊎◌, inl, inr, true, none, some, arith}
use iml.Common.Results.{Result, ok, err}
use iml.Ipam.Netip.{Family, v4, v6, Addr, no_addr, ip, prefix, block, unmap, prefix_contains}
use iml.Ipam.Network.{IsNetwork, contains_range}
use iml.Ipam.Pool.{
  PoolError, AddrPool, contains, next, assign, is_free, scan, rounds, allocate, pool_exhausted,
}
use iml.Ipam.Pool.Consistent.{IsConsistent}
use iml.Ipam.Pool.Scan.{InRange, next_range, scan-Outcome}

-- The pool is over a network, has handed out its last address there, and its maps agree.
pub record IsValid {Owner : Type 0} (p : AddrPool Owner) : Type 0 where
  pub family : Family
  pub net : ℕ
  pub bits : ℕ
  pub base_eq : p.base ≡ prefix family net bits
  pub is_network : IsNetwork (prefix family net bits)
  pub last_value : ℕ
  pub last_eq : p.last ≡ ip family last_value
  pub last_range : InRange family net bits is_network last_value
  pub consistent : IsConsistent p

contains→range :
    (f : Family) (n k : ℕ) (w : IsNetwork (prefix f n k)) (a : Addr)
    → unmap a ≡ a
    → contains (prefix f n k) a ≡ true
    → (i : ℕ) × (a ≡ ip f i) × InRange f n k w i
unfolding contains
contains→range f n k w no_addr u h = absurd (ground arith)
contains→range v4 n k w (ip v4 i) u h = (i, refl, ground (arith, contains_range v4 n k w i))
contains→range v4 n k w (ip v6 i) u h = absurd (ground arith)
contains→range v6 n k w (ip v4 i) u h = absurd (ground arith)
contains→range v6 n k w (ip v6 i) u h = (i, refl, ground (arith, u, contains_range v6 n k w i))

module _ {Owner : Type 0} (dec : Discrete Owner) where
  pub is_free_parts :
      (p : AddrPool Owner) (a : Addr)
      → is_free dec p a ≡ true
      → (contains p.base a ≡ true) × (p.owners a ≡ none)
  unfolding is_free
  is_free_parts p a h = (ground arith, ground arith)

  pub is_free_of :
      (p : AddrPool Owner) (a : Addr)
      → contains p.base a ≡ true
      → p.owners a ≡ none
      → is_free dec p a ≡ true
  unfolding is_free
  is_free_of p a c e = ground arith

  -- The first free address of the round, or there is none.
  abbrev pub Allocated : AddrPool Owner → Owner → Type 0
  Allocated p o =
      ((a : Addr) × (allocate dec p o ≡ (record (assign dec p a o) { last = a }, ok a))
        × (contains p.base a ≡ true)
        × (p.owners a ≡ none)
        × (prefix_contains p.base a ≡ true))
      ⊎ ((allocate dec p o ≡ (p, err pool_exhausted))
          × ((a : Addr) → unmap a ≡ a → contains p.base a ≡ true → p.owners a ≢ none))

  module _ (p : AddrPool Owner) (o : Owner) where
    pub allocate_held : (a : Addr) → p.addrs o ≡ some a → allocate dec p o ≡ (p, ok a)
    unfolding allocate
    allocate_held a e = rw (e, allocate)

    pub allocate_new : IsValid p → p.addrs o ≡ none → Allocated p o
    unfolding allocate
    allocate_new v e =
        let (s, es, c) = next_range v.family v.net v.bits v.is_network v.last_value v.last_range in
        let start : next p.base p.last ≡ ip v.family s = rw (v.base_eq, v.last_eq) es in
        let full : rounds p.base ≡ block v.family v.bits = rw v.base_eq in
        let at_start : (r : Result PoolError Addr)
            → scan dec p (block v.family v.bits) (ip v.family s) (ip v.family s) ≡ r
            → scan dec p (rounds p.base) (next p.base p.last) (next p.base p.last) ≡ r =
          λ r q. rw (full, start) q in
        let range : InRange v.family v.net v.bits v.is_network s = (omega arith, omega arith) in
        elim (scan-Outcome v.family v.net v.bits v.is_network dec p v.base_eq
          (block v.family v.bits) s s range range (ground arith)) [
            | inl (j, q, hj, free, first) ↦
                let r = at_start (ok (ip v.family j)) q in
                let (inside, unowned) = is_free_parts p (ip v.family j) free in
                inl (
                  ip v.family j,
                  ground (arith, r),
                  inside,
                  unowned,
                  rw v.base_eq ((contains_range v.family v.net v.bits v.is_network j).1 hj),
                )
            | inr (q, none_free) ↦
                let r = at_start (err pool_exhausted) q in
                inr (
                  ground (arith, r),
                  λ a u h t.
                      let (i, at, hi) =
                        contains→range v.family v.net v.bits v.is_network a u
                          (rw (← v.base_eq) h) in
                      let free = is_free_of p (ip v.family i) (rw (← at) h) (rw (← at) t) in
                      cc (none_free i hi (omega arith)),
                )
          ]
