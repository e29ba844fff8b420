-- ===== src/Nfgc.antt =====
-- The garbage collection of network functions: operator/internal/controller/core/nfgc. The API server
-- answers each request as it likes, on the log of the requests that change something; goroutines
-- are taken in the order in which they are started; sort.Sort and the work queue are parameters.
use iml.Common.{
  ℕ, zero, suc, ◌-◌, ◌==◌, ltb, leb, not, ◌&&◌, ◌||◌, Bool, true, false, List, [], ◌∷◌, ◌++◌,
  length, Option, none, some, if◌then◌else◌,
}
use iml.Common.Texts.{Text, text_eq, text_lt}
mod Tests
pub mod Requests
pub mod Justified
pub mod Collected

pub data Phase : Type 0 where
  pending running failed other_phase : Phase

-- The namespace and the name of an object.
pub record NfKey : Type 0 where
  pub namespace : Text
  pub name : Text

-- What the code reads of a network function; an empty target is none.
pub record Nf : Type 0 where
  pub key : NfKey
  pub phase : Phase
  pub evicted_reason : Bool
  pub deleting : Bool
  pub target : Text
  pub created : ℕ

pub data Request : Type 0 where
  patch_failed : NfKey → Bool → Request
  delete_nf : NfKey → Request
  quarantine : Text → Request

-- A target as `Get` returns it: whether it is ready and has the taint for being out of service.
pub record Target : Type 0 where
  pub ready : Bool
  pub out_of_service : Bool

pub record Api : Type 0 where
  pub get_target : List Request → Text → Option Target
  pub target_exists : List Request → Text → Option Bool
  pub perform : List Request → Request → Bool

unfoldable pub is_nf_terminated : Nf → Bool
is_nf_terminated nf = elim nf.phase [
  | pending ↦ false
  | running ↦ false
  | failed ↦ true
  | other_phase ↦ true
]

unfoldable pub nf_is_evicted : Nf → Bool
nf_is_evicted nf = elim nf.phase [
  | failed ↦ nf.evicted_reason
  | pending ↦ false
  | running ↦ false
  | other_phase ↦ false
]

-- `Less`: the evicted ones first, then by creation and by name.
unfoldable pub gc_less : Nf → Nf → Bool
gc_less a b = elim (nf_is_evicted a) [
  | true ↦ elim (nf_is_evicted b) [ false ↦ true | true ↦ older a b ]
  | false ↦ elim (nf_is_evicted b) [ true ↦ false | false ↦ older a b ]
]
  where
    older : Nf → Nf → Bool
    older a b =
        if a.created == b.created then text_lt a.key.name b.key.name else ltb a.created b.created

abbrev pub key_eq : NfKey → NfKey → Bool
key_eq a b = text_eq a.namespace b.namespace && text_eq a.name b.name

-- Whether the phase of a function has been set to Failed, by the listing or by an earlier call.
unfoldable pub is_marked : NfKey → List Request → Bool
is_marked key [] = false
is_marked key (patch_failed n c ∷ log) = key_eq n key || is_marked key log
is_marked key (delete_nf n ∷ log) = is_marked key log
is_marked key (quarantine n ∷ log) = is_marked key log

abbrev pub is_failed_nf : Nf → List Request → Bool
is_failed_nf nf log = elim nf.phase [
  | failed ↦ true
  | pending ↦ is_marked nf.key log
  | running ↦ is_marked nf.key log
  | other_phase ↦ is_marked nf.key log
]

-- `slice[:n]`
unfoldable pub first_of_list {ℓ} : {A : Type ℓ} → ℕ → List A → List A
first_of_list zero xs = []
first_of_list (suc n) [] = []
first_of_list (suc n) (x ∷ xs) = x ∷ first_of_list n xs

unfoldable pub select {ℓ} : {A : Type ℓ} → (A → Bool) → List A → List A
select p [] = []
select p (x ∷ xs) = let rest = select p xs in if p x then x ∷ rest else rest

module _ (api : Api) (sort : (Nf → Nf → Bool) → List Nf → List Nf) where
  -- `markFailedAndDeleteNFWithCondition`, with whether there is a condition; its error is logged.
  unfoldable pub mark_failed_and_delete_nf : Bool → Nf → List Request → List Request
  mark_failed_and_delete_nf with_condition nf log =
      let patch = patch_failed nf.key with_condition in
      if is_failed_nf nf log
      then log ++ (delete_nf nf.key ∷ [])
      else if api.perform log patch
      then (log ++ (patch ∷ [])) ++ (delete_nf nf.key ∷ [])
      else log ++ (patch ∷ [])

  unfoldable pub collect_each : Bool → List Nf → List Request → List Request
  collect_each with_condition [] log = log
  collect_each with_condition (nf ∷ nfs) log =
      collect_each with_condition nfs (mark_failed_and_delete_nf with_condition nf log)

  -- `deleteCount <= 0` is a difference on ℕ that is 0.
  unfoldable pub gc_terminated : ℕ → List Nf → List Request → List Request
  gc_terminated threshold nfs log =
      let terminated = select is_nf_terminated nfs in
      collect_each false (first_of_list (length terminated - threshold) (sort gc_less terminated))
        log

  -- The functions that are terminating on a target out of service.
  abbrev pub stuck : List Request → Nf → Bool
  stuck log nf = nf.deleting && elim (api.get_target log nf.target) [
    | none ↦ false
    | some t ↦ not t.ready && t.out_of_service
  ]

  unfoldable pub gc_terminating : List Nf → List Request → List Request
  gc_terminating nfs log = collect_each false (sort gc_less (select (stuck log) nfs)) log

  unfoldable pub has_text : Text → List Text → Bool
  has_text t [] = false
  has_text t (u ∷ us) = text_eq u t || has_text t us

  -- `discoverDeletedTargets`, of what the queue gives out: names, or none where it is shut down.
  unfoldable pub discover_deleted_targets :
      List Text → List (Option Text) → List Request → Option (List Text)
  discover_deleted_targets existing [] log = some []
  discover_deleted_targets existing (none ∷ ready) log = none
  discover_deleted_targets existing (some name ∷ ready) log =
      let rest = discover_deleted_targets existing ready log in
      if has_text name existing then rest else elim (api.target_exists log name) [
        | none ↦ rest
        | some exists ↦ elim exists [
          | true ↦ rest
          | false ↦ elim rest [ none ↦ none | some gone ↦ some (name ∷ gone) ]
        ]
      ]

  -- The first loop of `gcOrphaned`.
  unfoldable pub quarantine_missing : List Text → List Nf → List Request → List Request
  quarantine_missing existing [] log = log
  quarantine_missing existing (nf ∷ nfs) log = quarantine_missing existing nfs (
      if not (text_eq nf.target []) && not (has_text nf.target existing)
      then log ++ (quarantine nf.target ∷ [])
      else log)

  -- The last loop of `gcOrphaned`, unless the queue was shut down.
  abbrev pub delete_orphans : List Nf → Option (List Text) → List Request → List Request
  delete_orphans nfs none log = log
  delete_orphans nfs (some gone) log =
      collect_each true (select (λ nf. has_text nf.target gone) nfs) log

  -- `gcOrphaned`, with what the queue has ready.
  unfoldable pub gc_orphaned :
      List (Option Text) → List Nf → List Text → List Request → List Request
  gc_orphaned ready nfs existing log =
      let waiting = quarantine_missing existing nfs log in
      delete_orphans nfs (discover_deleted_targets existing ready waiting) waiting

  unfoldable pub gc_unscheduled_terminating : List Nf → List Request → List Request
  gc_unscheduled_terminating nfs log =
      collect_each false (select (λ nf. nf.deleting && text_eq nf.target []) nfs) log

  -- `Reconcile`, where both listings succeed: the network functions, the names of the targets.
  unfoldable pub gc_reconcile :
      ℕ → List (Option Text) → List Nf → List Text → List Request → List Request
  gc_reconcile threshold ready nfs targets log =
      let a = if ltb 0 threshold then gc_terminated threshold nfs log else log in
      let b = gc_terminating nfs a in
      let c = gc_orphaned ready nfs targets b in gc_unscheduled_terminating nfs c
