-- ===== src/Ipam/Pool/Consistent.antt =====
-- operator/pkg/ipam/pool.go: the two maps of the pool stay inverse to one another.
use iml.Common.{◌≡◌, true, none, some, arith, Option-cases, inl, inr}
use iml.Ipam.Netip.{Addr}
use iml.Ipam.Pool.{AddrPool, contains, assign, release}

-- Every owned address has the one owner that holds it, and can be handed out.
pub record IsConsistent {Owner : Type 0} (p : AddrPool Owner) : Type 0 where
  pub forward : (a : Addr) (o : Owner) → p.owners a ≡ some o → p.addrs o ≡ some a
  pub backward : (o : Owner) (a : Addr) → p.addrs o ≡ some a → p.owners a ≡ some o
  pub inside : (a : Addr) (o : Owner) → p.owners a ≡ some o → contains p.base a ≡ true

module _ {Owner : Type 0} (dec : Discrete Owner) where
  pub assign-IsConsistent :
      (p : AddrPool Owner) (a : Addr) (o : Owner)
      → p.owners a ≡ none
      → p.addrs o ≡ none
      → contains p.base a ≡ true
      → IsConsistent p
      → IsConsistent (assign dec p a o)
  unfolding assign
  assign-IsConsistent p a o ha ho hc h = record {
    forward = λ b q e. ground (arith, h.forward b q);
    backward = λ q b e. ground (arith, h.backward q b);
    inside = λ b q e. ground (arith, h.inside b q);
  }

  pub release-IsConsistent :
      (p : AddrPool Owner) (o : Owner) → IsConsistent p → IsConsistent (release dec p o)
  unfolding release
  release-IsConsistent p o h = elim (Option-cases (p.addrs o)) [
    | inl e ↦ rw (e, release) h
    | inr (x, e) ↦
        rw (e, release)
          (record {
            forward = λ b q f. ground (arith, h.forward b q, h.backward o x);
            backward = λ q b f. ground (arith, h.backward q b, h.backward o x);
            inside = λ b q f. ground (arith, h.inside b q);
          })
  ]
