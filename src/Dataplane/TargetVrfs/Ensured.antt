-- ===== src/Dataplane/TargetVrfs/Ensured.antt =====
-- Which VRFs of targets are kept after `EnsureP4TargetVRF` and `RemoveP4TargetVRF`:
-- daemon/pkg/dataplane/vrf/software_linux.go.
use iml.Common.{
  ℕ, ◌≡◌, ◌⊎◌, inl, inr, true, none, some, refl, ap, subst, ◌∙◌, Option-cases, Bool-cases,
  ℕ_discrete, arith, if_pos, if_neg,
}
use iml.Common.Results.{Result, ok, err}
use iml.Common.Texts.{Text, text_eq_refl}
use iml.Dataplane.Parsing.{DualStack}
use iml.Dataplane.Kernel.{
  IpNet, Kernel, Failure, Action, Asking, pure, modify, deferred, continued, ◌>>=◌, ◌>>◌,
}
use iml.Dataplane.Alloc.{Iplib, allocate_table}
use iml.Dataplane.TargetVrf.{TargetVrf}
use iml.Dataplane.Tunnels.{
  Fabric, on_kernel, tunnel_addresses_4, tunnel_addresses_6, next_table, create_ends,
}
use iml.Dataplane.TargetVrfs.{
  Settings, TargetVrfInfo, target_vrf_info, ip_net_string, same_dual_stack_network, tear_down,
  build, keep, drop, create_target_vrf, link_exists, ensure_vrf_of,
}

ok_inj : {A : Type 0} {a b : A} → Path (Result Failure A) (ok a) (ok b) → a ≡ b
ok_inj e = cc

module _ (lib : Iplib) where
  -- An action that leaves the VRFs that are kept alone.
  pub record Keeps {A : Type 0} (m : Action (Fabric lib) A) : Type 0 where
    pub kept : (d : Fabric lib) → (m d).1.p4_target_vrfs ≡ d.p4_target_vrfs

  outcome-Keeps :
      {A B : Type 0} (d : Fabric lib) (o : Result Failure A × Fabric lib)
      (f : A → Action (Fabric lib) B)
      → o.1.p4_target_vrfs ≡ d.p4_target_vrfs
      → ((a : A) → Keeps (f a))
      → (continued o f).1.p4_target_vrfs ≡ d.p4_target_vrfs
  outcome-Keeps d (ok a, t) f h k = (k a).kept t ∙ h
  outcome-Keeps d (err e, t) f h k = h

  >>=-Keeps :
      {A B : Type 0} (m : Action (Fabric lib) A) (f : A → Action (Fabric lib) B)
      → Keeps m
      → ((a : A) → Keeps (f a))
      → Keeps (m >>= f)
  >>=-Keeps m f h k = record { kept = λ d. outcome-Keeps d (m d) f (h.kept d) k }

  outcome-deferred :
      {A : Type 0} (d : Fabric lib) (o : Result Failure A × Fabric lib)
      (c : Action (Fabric lib) (Unit {0}))
      → o.1.p4_target_vrfs ≡ d.p4_target_vrfs
      → Keeps c
      → (deferred (λ s. o) c d).1.p4_target_vrfs ≡ d.p4_target_vrfs
  outcome-deferred d (ok a, t) c h k = h
  outcome-deferred d (err e, t) c h k = k.kept t ∙ h

  deferred-Keeps :
      {A : Type 0} (m : Action (Fabric lib) A) (c : Action (Fabric lib) (Unit {0}))
      → Keeps m
      → Keeps c
      → Keeps (deferred m c)
  deferred-Keeps m c h k = record { kept = λ d. outcome-deferred d (m d) c (h.kept d) k }

  on_kernel-Keeps : {A : Type 0} (m : Asking A) → Keeps (on_kernel lib m)
  unfolding on_kernel
  on_kernel-Keeps m = record { kept = λ d. refl }

  pure-Keeps : {A : Type 0} (a : A) → Keeps (pure a)
  pure-Keeps a = record { kept = λ d. refl }

  tunnel_addresses_4-Keeps : Keeps (tunnel_addresses_4 lib)
  unfolding tunnel_addresses_4
  tunnel_addresses_4-Keeps = record { kept = λ d. ground arith }

  tunnel_addresses_6-Keeps : Keeps (tunnel_addresses_6 lib)
  unfolding tunnel_addresses_6
  tunnel_addresses_6-Keeps = record { kept = λ d. ground arith }

  next_table-Keeps : Keeps (next_table lib)
  unfolding next_table
  next_table-Keeps = record { kept = λ d. refl }

  create_ends-Keeps : (kernel : Kernel) (v w : Text) → Keeps (create_ends lib kernel v w)
  unfolding create_ends
  create_ends-Keeps kernel v w = >>=-Keeps _ _ (on_kernel-Keeps _) (λ n.
      >>=-Keeps _ _ (on_kernel-Keeps _) (λ k. >>=-Keeps _ _ tunnel_addresses_4-Keeps (λ four.
        >>=-Keeps _ _ tunnel_addresses_6-Keeps (λ six. >>=-Keeps _ _ (on_kernel-Keeps _) (λ u.
          >>=-Keeps _ _ (on_kernel-Keeps _)
            (λ x. >>=-Keeps _ _ (on_kernel-Keeps _) (λ y. pure-Keeps _)))))))

  -- An action whose result has a property, where there is one.
  pub record Yields {A : Type 0} (P : A → Type 0) (m : Action (Fabric lib) A) : Type 0 where
    pub yield : (d : Fabric lib) (a : A) → (m d).0 ≡ ok a → P a

  outcome-Yields :
      {A B : Type 0} (P : B → Type 0) (o : Result Failure A × Fabric lib)
      → (f : A → Action (Fabric lib) B) → ((a : A) → Yields P (f a))
      → (b : B) → (continued o f).0 ≡ ok b
      → P b
  outcome-Yields P (ok a, t) f h b e = (h a).yield t b e
  outcome-Yields P (err x, t) f h b e = cc

  >>=-Yields :
      {A B : Type 0} (P : B → Type 0) (m : Action (Fabric lib) A) (f : A → Action (Fabric lib) B)
      → Keeps m
      → ((a : A) → Yields P (f a))
      → Yields P (m >>= f)
  >>=-Yields P m f k h = record { yield = λ d b e. outcome-Yields P (m d) f h b e }

  pure-Yields : {A : Type 0} (P : A → Type 0) (a : A) → P a → Yields P (pure a)
  pure-Yields P a p = record { yield = λ d b e. subst P (ok_inj e) p }

  module _ (kernel : Kernel) (c : Settings) where
    pub tear_down-Keeps : (t : TargetVrf) → Keeps (tear_down lib kernel c t)
    unfolding tear_down
    tear_down-Keeps t = record { kept = λ d. (on_kernel-Keeps _).kept d }

    build-Keeps : (table : ℕ) (cidr : DualStack IpNet) → Keeps (build lib kernel c table cidr)
    unfolding build
    build-Keeps table cidr = >>=-Keeps _ _ (on_kernel-Keeps _) (λ u.
        >>=-Keeps _ _ (deferred-Keeps _ _ (create_ends-Keeps _ _ _) (tear_down-Keeps _)) (λ tun.
          >>=-Keeps _ _ (deferred-Keeps _ _ (on_kernel-Keeps _) (tear_down-Keeps _)) (λ x.
            >>=-Keeps _ _ (deferred-Keeps _ _ (on_kernel-Keeps _) (tear_down-Keeps _)) (λ y.
              >>=-Keeps _ _ (deferred-Keeps _ _ (on_kernel-Keeps _) (tear_down-Keeps _))
                (λ z. pure-Keeps _)))))

    build-Yields :
        (table : ℕ) (cidr : DualStack IpNet)
        → Yields (λ t. t.nf_cidr ≡ cidr) (build lib kernel c table cidr)
    unfolding build
    build-Yields table cidr =
        let P = λ (t : TargetVrf). t.nf_cidr ≡ cidr in
        >>=-Yields P _ _ (on_kernel-Keeps _) (λ u.
          >>=-Yields P _ _ (deferred-Keeps _ _ (create_ends-Keeps _ _ _) (tear_down-Keeps _))
            (λ tun.
              >>=-Yields P _ _ (deferred-Keeps _ _ (on_kernel-Keeps _) (tear_down-Keeps _)) (λ x.
                >>=-Yields P _ _ (deferred-Keeps _ _ (on_kernel-Keeps _) (tear_down-Keeps _)) (λ y.
                  >>=-Yields P _ _ (deferred-Keeps _ _ (on_kernel-Keeps _) (tear_down-Keeps _))
                    (λ z. pure-Yields P _ refl)))))

    -- What is kept after a VRF is asked for: under the key, a VRF of the network that is returned, or
    -- none after an error; the VRFs of the other keys are as they were.
    abbrev pub Ensures :
        ℕ → DualStack IpNet → Fabric lib → Result Failure TargetVrfInfo × Fabric lib → Type 0
    Ensures key cidr d o =
        ((k : ℕ) → ¬ (k ≡ key) → o.1.p4_target_vrfs k ≡ d.p4_target_vrfs k)
        × (((t : TargetVrf) × (o.0 ≡ ok (target_vrf_info t))
              × (o.1.p4_target_vrfs key ≡ some t)
              × (same_dual_stack_network c t.nf_cidr cidr ≡ true))
            ⊎ ((e : Failure) × (o.0 ≡ err e) × (o.1.p4_target_vrfs key ≡ none)))

    same_self : (cidr : DualStack IpNet) → same_dual_stack_network c cidr cidr ≡ true
    unfolding same_dual_stack_network
    same_self cidr =
        rw (text_eq_refl (ip_net_string c cidr.ipv4), text_eq_refl (ip_net_string c cidr.ipv6)) refl

    outcome-Ensures :
        (key : ℕ) (cidr : DualStack IpNet) (d : Fabric lib)
        (o : Result Failure TargetVrf × Fabric lib)
        → d.p4_target_vrfs key ≡ none
        → o.1.p4_target_vrfs ≡ d.p4_target_vrfs
        → ((t : TargetVrf) → o.0 ≡ ok t → t.nf_cidr ≡ cidr)
        → Ensures key cidr d
            (continued o (λ t. modify (keep lib kernel c key t) >> pure (target_vrf_info t)))
    outcome-Ensures key cidr d (ok t, e) n h y = (
      (λ k m. if_neg (ℕ_discrete k key) m _ _ ∙ ap (λ v. v k) h),
      inl (
        t,
        refl,
        if_pos (ℕ_discrete key key) refl _ _,
        ap (λ n. same_dual_stack_network c n cidr) (y t refl) ∙ same_self cidr,
      ),
    )
    outcome-Ensures key cidr d (err x, e) n h y =
        ((λ k m. ap (λ v. v k) h), inr (x, refl, ap (λ v. v key) h ∙ n))

    create_target_vrf-Ensures :
        (key : ℕ) (cidr : DualStack IpNet) (d : Fabric lib)
        → d.p4_target_vrfs key ≡ none
        → Ensures key cidr d (create_target_vrf lib kernel c key cidr d)
    unfolding create_target_vrf next_table
    create_target_vrf-Ensures key cidr d n =
        let (table, e) = allocate_table d.table_allocator in
        let after = record d { table_allocator = e } in
        outcome-Ensures key cidr d (build lib kernel c table cidr after) n
          ((build-Keeps table cidr).kept after) (λ t q. (build-Yields table cidr).yield after t q)

    -- After a VRF was torn down and dropped, another one is created.
    recreated-Ensures :
        (key : ℕ) (cidr : DualStack IpNet) (d e : Fabric lib)
        → e.p4_target_vrfs ≡ d.p4_target_vrfs
        → Ensures key cidr d (create_target_vrf lib kernel c key cidr (drop lib kernel c key e))
    recreated-Ensures key cidr d e h =
        let (others, own) =
          create_target_vrf-Ensures key cidr (drop lib kernel c key e)
            (if_pos (ℕ_discrete key key) refl _ _) in
        ((λ k m. others k m ∙ if_neg (ℕ_discrete k key) m _ _ ∙ ap (λ v. v k) h), own)

    -- `EnsureP4TargetVRF` of a target and the NF CIDR parsed, whether it returns an error or not, leaves the VRFs of the other targets on record as they were; where it returns none, the VRF that it describes is on record for the target, with the same networks; where it returns one, there is no VRF on record for it.
    pub ensure_vrf_of-Ensures :
        (key : ℕ) (cidr : DualStack IpNet) (d : Fabric lib)
        → Ensures key cidr d (ensure_vrf_of lib kernel c key cidr d)
    unfolding ensure_vrf_of tear_down
    ensure_vrf_of-Ensures key cidr d = elim (Option-cases (d.p4_target_vrfs key)) [
      | inl q ↦ rw (q, ensure_vrf_of) (create_target_vrf-Ensures key cidr d q)
      | inr (t, q) ↦ elim (Bool-cases (same_dual_stack_network c t.nf_cidr cidr)) [
        | inl s ↦ elim (Bool-cases (link_exists lib kernel c t.vrf d)) [
          | inl l ↦ rw (q, s, l, ensure_vrf_of) ((λ k m. refl), inl (t, refl, q, s))
          | inr l ↦
              rw (q, s, l, ensure_vrf_of)
                (recreated-Ensures key cidr d _ ((tear_down-Keeps t).kept d))
        ]
        | inr s ↦
            rw (q, s, ensure_vrf_of) (recreated-Ensures key cidr d _ ((tear_down-Keeps t).kept d))
      ]
    ]
