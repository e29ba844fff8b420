-- ===== src/Dataplane/TargetVrfs/Repeated.antt =====
-- `EnsureP4TargetVRF` called again, and `RemoveP4TargetVRF`:
-- daemon/pkg/dataplane/vrf/software_linux.go.
use iml.Common.{
  ℕ, ◌≡◌, inl, inr, true, none, some, refl, sym, ap, ◌∙◌, Option-cases, ℕ_discrete, if_pos, if_neg,
  ite,
}
use iml.Common.Results.{Result, ok}
use iml.Dataplane.Parsing.{DualStack}
use iml.Dataplane.Kernel.{IpNet, Kernel, Failure}
use iml.Dataplane.Alloc.{Iplib}
use iml.Dataplane.TargetVrf.{TargetVrf}
use iml.Dataplane.Tunnels.{Fabric}
use iml.Dataplane.TargetVrfs.{
  Settings, TargetVrfInfo, target_vrf_info, same_dual_stack_network, tear_down, link_exists,
  ensure_vrf_of, remove_p4_target_vrf,
}
use iml.Dataplane.TargetVrfs.Ensured.{ensure_vrf_of-Ensures, tear_down-Keeps}

module _ (lib : Iplib) (kernel : Kernel) (c : Settings) where
  kept_again :
      (key : ℕ) (cidr : DualStack IpNet) (d : Fabric lib) (t : TargetVrf)
      → d.p4_target_vrfs key ≡ some t
      → same_dual_stack_network c t.nf_cidr cidr ≡ true
      → link_exists lib kernel c t.vrf d ≡ true
      → ensure_vrf_of lib kernel c key cidr d ≡ (ok (target_vrf_info t), d)
  unfolding ensure_vrf_of
  kept_again key cidr d t q s l = rw (q, s, l, ensure_vrf_of) refl

  -- `EnsureP4TargetVRF` is idempotent: called again with the NF CIDR parsed, after a call that
  -- returned no error and as long as the VRF's device exists, it returns what that call returned,
  -- makes no request and changes no record.
  pub ensure_vrf_of-again :
      (key : ℕ) (cidr : DualStack IpNet) (d : Fabric lib) (info : TargetVrfInfo)
      → (ensure_vrf_of lib kernel c key cidr d).0 ≡ ok info
      → link_exists lib kernel c info.name (ensure_vrf_of lib kernel c key cidr d).1 ≡ true
      → ensure_vrf_of lib kernel c key cidr (ensure_vrf_of lib kernel c key cidr d).1
        ≡ (ok info, (ensure_vrf_of lib kernel c key cidr d).1)
  unfolding target_vrf_info
  ensure_vrf_of-again key cidr d info h l =
      let after = (ensure_vrf_of lib kernel c key cidr d).1 in
      elim ((ensure_vrf_of-Ensures lib kernel c key cidr d).1) [
        | inl (t, r, q, s) ↦
            let same : Path (Result Failure TargetVrfInfo) (ok (target_vrf_info t)) (ok info) =
              sym r ∙ h in
            let name : info.name ≡ t.vrf = cc in
            let exists = ap (λ n. link_exists lib kernel c n after) (sym name) ∙ l in
            kept_again key cidr after t q s exists ∙ ap (λ x. (x, after)) same
        | inr (e, r, q) ↦ cc
      ]

  -- `RemoveP4TargetVRF` returns no error, leaves no VRF on record for its target and the VRFs of the
  -- other targets as they were, whatever the kernel answers.
  pub remove_p4_target_vrf_lem :
      (key k : ℕ) (d : Fabric lib)
      → ((remove_p4_target_vrf lib kernel c key d).0 ≡ ok tt)
        × ((remove_p4_target_vrf lib kernel c key d).1.p4_target_vrfs k
            ≡ ite (ℕ_discrete k key) none (d.p4_target_vrfs k))
  unfolding remove_p4_target_vrf tear_down
  remove_p4_target_vrf_lem key k d = elim (Option-cases (d.p4_target_vrfs key)) [
    | inl q ↦
        rw (q, remove_p4_target_vrf)
          (
            refl,
            elim (ℕ_discrete k key) [
              | yes p ↦ ap d.p4_target_vrfs p ∙ q ∙ sym (if_pos (ℕ_discrete k key) p _ _)
              | no n ↦ sym (if_neg (ℕ_discrete k key) n _ _)
            ],
          )
    | inr (t, q) ↦
        rw (q, remove_p4_target_vrf)
          (
            refl,
            ap (λ v. ite (ℕ_discrete k key) none (v k)) ((tear_down-Keeps lib kernel c t).kept d),
          )
  ]
