-- ===== src/Ipam/Pool/Runs.antt =====
-- operator/pkg/ipam/pool.go: any sequence of calls. The calls of concurrent goroutines are
-- serialised by the pool's mutex, so that every interleaving of them is such a sequence.
use iml.Common.{◌≡◌, refl, ◌∙◌, inl, inr, true, none, arith, List, [], ◌∷◌, Option-cases, ℕ}
use iml.Common.Results.{ok}
use iml.Ipam.Netip.{
  Family, v4, v6, Addr, no_addr, ip, Prefix, no_prefix, prefix, prefix_contains, prefix_addr,
}
use iml.Ipam.Network.{IsNetwork, contains_range, network_of_checks, block_pos}
use iml.Ipam.Pool.{AddrPool, new_addr_pool, contains, assign, release, allocate, reserve}
use iml.Ipam.Pool.Consistent.{IsConsistent, assign-IsConsistent, release-IsConsistent}
use iml.Ipam.Pool.Scan.{InRange}
use iml.Ipam.Pool.Allocation.{IsValid, allocate_held, allocate_new}
use iml.Ipam.Pool.Reservation.{
  reserve-IsConsistent, reserve-base, reserve-last, release-base, release-last,
}
use iml.Common.Maps.{empty}

pub data Call (Owner : Type 0) : Type 0 where
  allocate_call : Owner → Call Owner
  reserve_call : Addr → Owner → Call Owner
  release_call : Owner → Call Owner

prefix_contains→range :
    (f : Family) (n k : ℕ) (w : IsNetwork (prefix f n k)) (a : Addr)
    → prefix_contains (prefix f n k) a ≡ true
    → (i : ℕ) × (a ≡ ip f i) × InRange f n k w i
prefix_contains→range f n k w no_addr h = absurd (ground arith)
prefix_contains→range v4 n k w (ip v4 i) h = (i, refl, (contains_range v4 n k w i).0 h)
prefix_contains→range v4 n k w (ip v6 i) h = absurd (ground arith)
prefix_contains→range v6 n k w (ip v4 i) h = absurd (ground arith)
prefix_contains→range v6 n k w (ip v6 i) h = (i, refl, (contains_range v6 n k w i).0 h)

module _ {Owner : Type 0} where
  new_shape :
      (base : Prefix) {p : AddrPool Owner}
      → new_addr_pool base ≡ ok p
      → p ≡ record { base = base; owners = empty; addrs = empty; last = prefix_addr base }
  unfolding new_addr_pool
  new_shape base e = ground arith

  -- What only changes the maps keeps the pool valid.
  maps-IsValid :
      (p p' : AddrPool Owner)
      → p'.base ≡ p.base
      → p'.last ≡ p.last
      → IsConsistent p'
      → IsValid p
      → IsValid p'
  maps-IsValid p p' b l h v = record {
    family = v.family;
    net = v.net;
    bits = v.bits;
    base_eq = b ∙ v.base_eq;
    is_network = v.is_network;
    last_value = v.last_value;
    last_eq = l ∙ v.last_eq;
    last_range = v.last_range;
    consistent = h;
  }

  pub new_addr_pool-IsValid :
      (base : Prefix) {p : AddrPool Owner} → new_addr_pool base ≡ ok p → IsValid p
  unfolding new_addr_pool
  new_addr_pool-IsValid no_prefix e = absurd (ground arith)
  new_addr_pool-IsValid (prefix f n k) {p} e =
      let w = network_of_checks f n k (ground arith) (ground arith) in
      record {
        family = f;
        net = n;
        bits = k;
        base_eq = ground arith;
        is_network = w;
        last_value = n;
        last_eq = ground arith;
        last_range = (omega arith, omega (arith, block_pos f n k));
        consistent =
            rw (new_shape (prefix f n k) e)
              (record { forward = λ a o h. cc; backward = λ o a h. cc; inside = λ a o h. cc });
      }

  module _ (dec : Discrete Owner) where
    unfoldable pub step : AddrPool Owner → Call Owner → AddrPool Owner
    step p (allocate_call o) = (allocate dec p o).0
    step p (reserve_call a o) = (reserve dec p a o).0
    step p (release_call o) = release dec p o

    unfoldable pub run : AddrPool Owner → List (Call Owner) → AddrPool Owner
    run p [] = p
    run p (c ∷ cs) = run (step p c) cs

    allocated-IsValid :
        (p : AddrPool Owner) (a : Addr) (o : Owner)
        → IsValid p
        → p.addrs o ≡ none
        → contains p.base a ≡ true
        → p.owners a ≡ none
        → prefix_contains p.base a ≡ true
        → IsValid (record (assign dec p a o) { last = a })
    unfolding assign
    allocated-IsValid p a o v e inside unowned within =
        let (i, at, range) =
          prefix_contains→range v.family v.net v.bits v.is_network a (rw (← v.base_eq) within) in
        let kept = assign-IsConsistent dec p a o unowned e inside v.consistent in
        record {
          family = v.family;
          net = v.net;
          bits = v.bits;
          base_eq = v.base_eq;
          is_network = v.is_network;
          last_value = i;
          last_eq = at;
          last_range = range;
          consistent = record {
            forward = kept.forward;
            backward = kept.backward;
            inside = kept.inside;
          };
        }

    allocate-IsValid : (p : AddrPool Owner) (o : Owner) → IsValid p → IsValid (allocate dec p o).0
    allocate-IsValid p o v = elim (Option-cases (p.addrs o)) [
      | inr (a, e) ↦ rw (allocate_held dec p o a e) v
      | inl e ↦ elim (allocate_new dec p o v e) [
        | inr (q, _) ↦ rw q v
        | inl (a, q, inside, unowned, within) ↦
            rw q (allocated-IsValid p a o v e inside unowned within)
      ]
    ]

    pub release-IsValid : (p : AddrPool Owner) (o : Owner) → IsValid p → IsValid (release dec p o)
    release-IsValid p o v =
        maps-IsValid p (release dec p o) (release-base dec p o) (release-last dec p o)
          (release-IsConsistent dec p o v.consistent) v

    step-IsValid : (p : AddrPool Owner) (c : Call Owner) → IsValid p → IsValid (step p c)
    unfolding step
    step-IsValid p (allocate_call o) v = allocate-IsValid p o v
    step-IsValid p (reserve_call a o) v =
        maps-IsValid p (reserve dec p a o).0 (reserve-base dec p o a) (reserve-last dec p o a)
          (reserve-IsConsistent dec p o a v.consistent) v
    step-IsValid p (release_call o) v = release-IsValid p o v

    pub run-IsValid : (p : AddrPool Owner) (cs : List (Call Owner)) → IsValid p → IsValid (run p cs)
    unfolding run
    run-IsValid p [] v = v
    run-IsValid p (c ∷ cs) v = run-IsValid (step p c) cs (step-IsValid p c v)
