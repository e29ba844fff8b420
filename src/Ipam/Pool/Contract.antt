-- ===== src/Ipam/Pool/Contract.antt =====
-- operator/pkg/ipam/pool.go: the contract of `AddrPool`, method by method.
use iml.Common.{
  ◌≡◌, ◌≢◌, inl, inr, true, none, some, arith, List, ite, Option-cases, ◌∙◌, if_pos, if_neg,
}
use iml.Common.Results.{ok, err}
use iml.Ipam.Netip.{Addr, Prefix, unmap}
use iml.Ipam.Pool.{
  PoolError, AddrPool, new_addr_pool, contains, assign, release, allocate, reserve, pool_exhausted,
}
use iml.Ipam.Pool.Allocation.{IsValid, allocate_held, allocate_new}
use iml.Ipam.Pool.Reservation.{
  release-addrs_ne, release-addrs_self, release-owners, release-base, reserve_ok,
}
use iml.Ipam.Pool.Runs.{Call, run, run-IsValid, new_addr_pool-IsValid, release-IsValid}

module _ {Owner : Type 0} (dec : Discrete Owner) where
  -- After any sequence of calls on a new pool, two owners that hold one address are the same
  -- owner, and an address that is held can be handed out by the pool.
  pub run_unique :
      (base : Prefix) (p : AddrPool Owner) (cs : List (Call Owner)) (o q : Owner) (a : Addr)
      → new_addr_pool base ≡ ok p
      → (run dec p cs).addrs o ≡ some a
      → (run dec p cs).addrs q ≡ some a
      → (o ≡ q) × (contains (run dec p cs).base a ≡ true)
  run_unique base p cs o q a e ho hq =
      let h = (run-IsValid dec p cs (new_addr_pool-IsValid base e)).consistent in
      let fo = h.backward o a ho in
      let fq = h.backward q a hq in (ground (arith, fo, fq), h.inside a o fo)

  module _ (p : AddrPool Owner) (o : Owner) (a : Addr) where
    -- When `Allocate` returns an address, the owner holds it and is its recorded owner, and the
    -- pool can hand it out; every other owner holds what it held before.
    pub allocate_ok :
        IsValid p
        → (allocate dec p o).1 ≡ ok a
        → ((q : Owner) → (allocate dec p o).0.addrs q ≡ ite (dec q o) (some a) (p.addrs q))
          × ((allocate dec p o).0.owners a ≡ some o)
          × (contains p.base a ≡ true)
    unfolding assign
    allocate_ok v e = elim (Option-cases (p.addrs o)) [
      | inr (b, f) ↦
          let r = allocate_held dec p o b f in
          let h = v.consistent in
          (
            λ q. ground (arith, r),
            ground (arith, r, h.backward o b),
            h.inside a o (ground (arith, r, h.backward o b)),
          )
      | inl f ↦ elim (allocate_new dec p o v f) [
        | inl (b, r, inside, unowned, _) ↦
            (λ q. ground (arith, r), ground (arith, r), ground (arith, r))
        | inr (r, _) ↦ absurd (ground (arith, r))
      ]
    ]

    -- While some address of the pool is free, `Allocate` returns an address to an owner that holds
    -- none: the loop ends, and ends on an address that had no owner.
    pub allocate_free :
        IsValid p
        → p.addrs o ≡ none
        → unmap a ≡ a
        → contains p.base a ≡ true
        → p.owners a ≡ none
        → (b : Addr) × ((allocate dec p o).1 ≡ ok b)
          × (p.owners b ≡ none)
          × (contains p.base b ≡ true)
    allocate_free v f u inside free = elim (allocate_new dec p o v f) [
      | inl (b, r, c, unowned, _) ↦ (b, rw r, unowned, c)
      | inr (r, full) ↦ absurd (full a u inside free)
    ]

    -- After a successful `Reserve` the owner holds the (unmapped) address and every other owner
    -- holds what it held before.
    pub reserve_addrs :
        (q : Owner)
        → IsValid p
        → (reserve dec p a o).1 ≡ none
        → (reserve dec p a o).0.addrs q ≡ ite (dec q o) (some (unmap a)) (p.addrs q)
    unfolding assign
    reserve_addrs q v e =
        let (self, owner, others) = reserve_ok dec p o a v.consistent e in
        elim (dec q o) [
          | yes same ↦ rw (if_pos (dec q o) same, same) self
          | no other ↦ rw (if_neg (dec q o) other) (others q other)
        ]

  module _ (p : AddrPool Owner) (o : Owner) where
    -- `Release` takes the owner's address away and leaves the other owners theirs.
    pub release_addrs : (q : Owner) → (release dec p o).addrs q ≡ ite (dec q o) none (p.addrs q)
    release_addrs q = elim (dec q o) [
      | yes same ↦ rw (if_pos (dec q o) same, same) (release-addrs_self dec p o)
      | no other ↦ rw (if_neg (dec q o) other) (release-addrs_ne dec p o q other)
    ]

    -- An address that `Release` gives back can be allocated again: right after it, `Allocate`
    -- succeeds for any other owner that holds none, however full the pool was.
    pub release-allocate :
        (a : Addr) (q : Owner)
        → IsValid p
        → p.addrs o ≡ some a
        → unmap a ≡ a
        → p.addrs q ≡ none
        → (b : Addr) × ((allocate dec (release dec p o) q).1 ≡ ok b)
    release-allocate a q v held u none_held =
        let free = (release-owners dec p o a).0 held in
        let inside : contains (release dec p o).base a ≡ true =
          rw (release-base dec p o) (v.consistent.inside a o (v.consistent.backward o a held)) in
        let other : q ≢ o = λ e. ground (arith) in
        let (b, r, _, _) =
          allocate_free (release dec p o) q a (release-IsValid dec p o v)
            (release-addrs_ne dec p o q other ∙ none_held) u inside free in
        (b, r)

  -- `Allocate` fails only because the pool is exhausted, and then leaves the pool as it was.
  pub allocate_error :
      (p : AddrPool Owner) (o : Owner) (e : PoolError)
      → IsValid p
      → (allocate dec p o).1 ≡ err e
      → (e ≡ pool_exhausted) × ((allocate dec p o).0 ≡ p)
  allocate_error p o e v h = elim (Option-cases (p.addrs o)) [
    | inr (b, f) ↦ absurd (ground (arith, allocate_held dec p o b f))
    | inl f ↦ elim (allocate_new dec p o v f) [
      | inl (b, r, _, _, _) ↦ absurd (ground (arith, r))
      | inr (r, _) ↦ (ground (arith, r), rw r)
    ]
  ]
