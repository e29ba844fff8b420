-- ===== src/Ipam/Pool/Reservation.antt =====
-- operator/pkg/ipam/pool.go: `Reserve` and `Release`.
use iml.Common.{
  ◌≡◌, ◌≢◌, refl, ◌⊎◌, inl, inr, true, false, none, some, arith, Bool-cases, Option-cases,
}
use iml.Ipam.Netip.{Addr, no_addr, ip, v4, v6, unmap}
use iml.Ipam.Pool.{
  PoolError, AddrPool, contains, assign, release, reserve, not_available, already_assigned,
}
use iml.Ipam.Pool.Consistent.{IsConsistent, assign-IsConsistent, release-IsConsistent}

pub unmap_idem : (a : Addr) → unmap (unmap a) ≡ unmap a
unmap_idem no_addr = refl
unmap_idem (ip v4 n) = refl
unmap_idem (ip v6 n) = ground arith

module _ {Owner : Type 0} (dec : Discrete Owner) (p : AddrPool Owner) (o : Owner) where
  pub release-base : (release dec p o).base ≡ p.base
  unfolding release
  release-base = ground arith

  pub release-last : (release dec p o).last ≡ p.last
  unfolding release
  release-last = ground arith

  pub release-addrs_self : (release dec p o).addrs o ≡ none
  unfolding release
  release-addrs_self = ground arith

  pub release-addrs_ne : (q : Owner) → q ≢ o → (release dec p o).addrs q ≡ p.addrs q
  unfolding release
  release-addrs_ne q d = ground arith

  pub release-owners :
      (a : Addr)
      → (p.addrs o ≡ some a → (release dec p o).owners a ≡ none)
        × (p.addrs o ≢ some a → (release dec p o).owners a ≡ p.owners a)
  unfolding release
  release-owners a = (λ e. ground arith, λ d. ground arith)

  pub release_absent : (a : Addr) → p.owners a ≡ none → (release dec p o).owners a ≡ none
  unfolding release
  release_absent a e = ground arith

  module _ (a : Addr) where
    -- A call changes nothing, or moves the owner to an unowned address.
    pub reserve_cases :
        ((reserve dec p a o).0 ≡ p)
        ⊎ ((contains p.base (unmap a) ≡ true)
            × (p.owners (unmap a) ≡ none)
            × (reserve dec p a o ≡ (assign dec (release dec p o) (unmap a) o, none)))
    unfolding reserve
    reserve_cases = elim (Bool-cases (contains p.base (unmap a))) [
      | inr out ↦ inl (ground arith)
      | inl inside ↦ elim (Option-cases (p.owners (unmap a))) [
        | inr (q, e) ↦ inl (ground arith)
        | inl e ↦ inr (inside, e, ground arith)
      ]
    ]

    pub reserve-base : (reserve dec p a o).0.base ≡ p.base
    unfolding assign
    reserve-base = elim reserve_cases [
      | inl same ↦ rw same
      | inr (inside, e, moved) ↦ rw moved release-base
    ]

    pub reserve-last : (reserve dec p a o).0.last ≡ p.last
    unfolding assign
    reserve-last = elim reserve_cases [
      | inl same ↦ rw same
      | inr (inside, e, moved) ↦ rw moved release-last
    ]

    pub reserve-IsConsistent : IsConsistent p → IsConsistent (reserve dec p a o).0
    reserve-IsConsistent h = elim reserve_cases [
      | inl same ↦ rw same h
      | inr (inside, e, moved) ↦ rw moved (
          assign-IsConsistent dec (release dec p o) (unmap a) o (release_absent (unmap a) e)
            release-addrs_self (rw release-base inside) (release-IsConsistent dec p o h))
    ]

    pub reserve_ok :
        IsConsistent p
        → (reserve dec p a o).1 ≡ none
        → ((reserve dec p a o).0.addrs o ≡ some (unmap a))
          × ((reserve dec p a o).0.owners (unmap a) ≡ some o)
          × ((q : Owner) → q ≢ o → (reserve dec p a o).0.addrs q ≡ p.addrs q)
    unfolding reserve assign
    reserve_ok h e = (
      ground (arith, h.forward (unmap a) o),
      ground arith,
      λ q d. ground (arith, release-addrs_ne q),
    )

    -- When `Reserve` fails the pool is unchanged, and the address cannot be handed out by the pool or
    -- belongs to another owner, as the error says.
    pub reserve_error :
        (e : PoolError)
        → (reserve dec p a o).1 ≡ some e
        → ((reserve dec p a o).0 ≡ p)
          × (((e ≡ not_available) × (contains p.base (unmap a) ≡ false))
              ⊎ ((e ≡ already_assigned) × ((q : Owner) × (p.owners (unmap a) ≡ some q) × (q ≢ o))))
    unfolding reserve
    reserve_error e h = elim (Bool-cases (contains p.base (unmap a))) [
      | inr out ↦ (ground arith, inl (ground arith, out))
      | inl inside ↦ elim (Option-cases (p.owners (unmap a))) [
        | inl f ↦ absurd (ground arith)
        | inr (q, f) ↦ (ground arith, inr (ground arith, (q, f, ground arith)))
      ]
    ]
