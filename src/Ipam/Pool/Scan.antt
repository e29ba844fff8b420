-- ===== src/Ipam/Pool/Scan.antt =====
-- operator/pkg/ipam/pool.go: the loop of `Allocate` goes once round the network.
use iml.Common.{
  ℕ, zero, suc, ◌+◌, ◌-◌, ◌≤◌, ◌<◌, ◌≡◌, ◌≢◌, refl, ◌⊎◌, inl, inr, Bool, true, false, arith, ◌==◌,
  if◌then◌else◌, leb, Bool-cases, ==_iff, ==_false,
}
use iml.Common.Results.{Result, ok, err}
use iml.Ipam.Netip.{Family, Addr, ip, prefix, block}
use iml.Ipam.Network.{IsNetwork, contains_range, family_eq_refl}
use iml.Ipam.Pool.{PoolError, AddrPool, next, is_free, scan, pool_exhausted}

-- What the loop, now at `m`, has still to visit before it is back at `s`.
abbrev pub Ahead : ℕ → ℕ → ℕ → Type 0
Ahead s m i = (s ≤ m × m ≤ i) ⊎ (s ≤ m × i < s) ⊎ (m < s × m ≤ i × i < s)

-- What a loop that starts at `s` visits before `j`.
abbrev pub Before : ℕ → ℕ → ℕ → Type 0
Before s j i = (s ≤ j × s ≤ i × i < j) ⊎ (j < s × s ≤ i) ⊎ (j < s × i < j)

module _ (f : Family) (n k : ℕ) (w : IsNetwork (prefix f n k)) where
  abbrev pub InRange : ℕ → Type 0
  InRange m = n ≤ m × m < n + block f k

  pub next_range :
      (m : ℕ)
      → InRange m
      → (m' : ℕ) × (next (prefix f n k) (ip f m) ≡ ip f m')
        × ((m + 1 < n + block f k × m' ≡ m + 1) ⊎ (m + 1 ≡ n + block f k × m' ≡ n))
  unfolding next
  next_range m h = elim (Bool-cases (leb (n + block f k) (m + 1))) [
    | inl e ↦ (n, ground (arith, contains_range f n k w (m + 1)), ground arith)
    | inr e ↦ (m + 1, ground (arith, contains_range f n k w (m + 1), w.2), ground arith)
  ]

  -- The rounds that are left.
  abbrev left : ℕ → ℕ → ℕ
  left s m = if leb s m then n + block f k - m + (s - n) else s - m

  module _ {Owner : Type 0} (dec : Discrete Owner) (p : AddrPool Owner)
      (b : p.base ≡ prefix f n k) where
    abbrev pub free_at : ℕ → Bool
    free_at i = is_free dec p (ip f i)

    -- The first free address ahead, or none is free.
    abbrev pub Outcome : ℕ → ℕ → Result PoolError Addr → Type 0
    Outcome s m r =
        ((j : ℕ) × (r ≡ ok (ip f j))
          × InRange j
          × (free_at j ≡ true)
          × ((i : ℕ) → InRange i → Ahead s m i → Before s j i → free_at i ≡ false))
        ⊎ ((r ≡ err pool_exhausted) × ((i : ℕ) → InRange i → Ahead s m i → free_at i ≡ false))

    last-Ahead :
        (s m m' i : ℕ)
        → m' ≡ s
        → (m + 1 < n + block f k × m' ≡ m + 1) ⊎ (m + 1 ≡ n + block f k × m' ≡ n)
        → InRange m
        → InRange i
        → Ahead s m i
        → i ≡ m
    last-Ahead s m m' i e c hm hi a = omega arith

    Ahead-step :
        (s m m' i : ℕ)
        → InRange s
        → InRange m
        → (m + 1 < n + block f k × m' ≡ m + 1) ⊎ (m + 1 ≡ n + block f k × m' ≡ n)
        → m' ≢ s
        → InRange i
        → Ahead s m i
        → (i ≡ m) ⊎ Ahead s m' i
    Ahead-step s m m' i hs hm c d hi a = omega arith

    taken_step :
        (s m m' i : ℕ)
        → free_at m ≡ false
        → (Ahead s m' i → free_at i ≡ false)
        → (i ≡ m) ⊎ Ahead s m' i
        → free_at i ≡ false
    taken_step s m m' i taken rest (inl e) = rw e taken
    taken_step s m m' i taken rest (inr a) = rest a

    Outcome-step :
        (s m m' : ℕ) {r : Result PoolError Addr}
        → free_at m ≡ false
        → InRange s
        → InRange m
        → (m + 1 < n + block f k × m' ≡ m + 1) ⊎ (m + 1 ≡ n + block f k × m' ≡ n)
        → m' ≢ s
        → Outcome s m' r
        → Outcome s m r
    Outcome-step s m m' taken hs hm c d (inl (j, e, hj, fj, first)) = inl (
      j,
      e,
      hj,
      fj,
      λ i hi a q.
          taken_step s m m' i taken (λ a'. first i hi a' q) (Ahead-step s m m' i hs hm c d hi a),
    )
    Outcome-step s m m' taken hs hm c d (inr (e, none_free)) = inr (
      e,
      λ i hi a. taken_step s m m' i taken (none_free i hi) (Ahead-step s m m' i hs hm c d hi a),
    )

    pub scan-Outcome :
        (fuel s m : ℕ)
        → InRange s
        → InRange m
        → left s m ≤ fuel
        → Outcome s m (scan dec p fuel (ip f s) (ip f m))
    unfolding scan
    scan-Outcome zero s m hs hm h = absurd (ground arith)
    scan-Outcome (suc fuel) s m hs hm h = elim (Bool-cases (free_at m)) [
      | inl free ↦ rw free (inl (m, refl, hm, free, λ i hi a q. absurd (omega arith)))
      | inr taken ↦
          let (m', e, c) = next_range m hm in
          let e' : next p.base (ip f m) ≡ ip f m' = rw b e in
          let hm' : InRange m' = (omega arith, omega arith) in
          elim (Bool-cases (m' == s)) [
            | inl stop ↦
                rw (taken, e', family_eq_refl f, stop)
                  (inr (
                    refl,
                    λ i hi a.
                        let same : i ≡ m = last-Ahead s m m' i ((==_iff m' s).0 stop) c hm hi a in
                        rw same taken,
                  ))
            | inr more ↦
                rw (taken, e', family_eq_refl f, more)
                  (Outcome-step s m m' taken hs hm c (==_false m' s more)
                    (scan-Outcome fuel s m' hs hm' (ground arith)))
          ]
    ]
