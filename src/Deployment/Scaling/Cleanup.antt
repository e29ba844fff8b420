-- ===== src/Deployment/Scaling/Cleanup.antt =====
-- replicas.go: which replica sets `cleanupOldReplicaSets` deletes.
use iml.Common.{
  ◌≡◌, refl, Bool, true, not, none, List, [], ◌∷◌, Bool-cases, inl, inr, ◌⊎◌, ap, sym, ◌∙◌, arith,
}
use mathlib.Core.Bool.{true≢false}
use mathlib.Core.List.{Memᴰ}
use mathlib.Core.List.Memᴰ.{head, tail}
use iml.Deployment.Objects.{
  ReplicaSet, filter_alive, filter_replica_sets, revision_before, Sort, insert_by, sort_by,
}
use iml.Deployment.Fenceposts.{IntOrStrings, Deployment}
use iml.Deployment.Scaling.{
  Request, update_rs, delete_rs, Answer, done, not_found, failed, Log, Api, is_cleanable,
  delete_loop, cleanup_old,
}

pub Answer-cases : (a : Answer) → ((a ≡ done) ⊎ (a ≡ not_found)) ⊎ ((n : _) × (a ≡ failed n))
Answer-cases done = inl (inl refl)
Answer-cases not_found = inl (inr refl)
Answer-cases (failed n) = inr (n, refl)

module _ (less : ReplicaSet → ReplicaSet → Bool) {x : ReplicaSet} where
  mem-insert_by :
      (a : ReplicaSet) (rss : List ReplicaSet) → Memᴰ x (a ∷ rss) → Memᴰ x (insert_by less a rss)
  unfolding insert_by
  mem-insert_by a [] m = m
  mem-insert_by a (b ∷ rss) m = elim (Bool-cases (less b a)) [
    | inr e ↦ rw e m
    | inl e ↦ rw e (elim m [
      | head h ↦ tail (mem-insert_by a rss (head h))
      | tail (head h) ↦ head h
      | tail (tail t) ↦ tail (mem-insert_by a rss (tail t))
    ])
  ]

  mem_of_insert_by :
      (a : ReplicaSet) (rss : List ReplicaSet) → Memᴰ x (insert_by less a rss) → Memᴰ x (a ∷ rss)
  unfolding insert_by
  mem_of_insert_by a [] = λ m. m
  mem_of_insert_by a (b ∷ rss) = elim (Bool-cases (less b a)) [
    | inr e ↦ rw e (λ m. m)
    | inl e ↦ rw e (λ m. elim m [
      | head h ↦ tail (head h)
      | tail t ↦ elim (mem_of_insert_by a rss t) [ head h ↦ head h | tail t' ↦ tail (tail t') ]
    ])
  ]

  pub mem-sort_by : (rss : List ReplicaSet) → Memᴰ x rss → Memᴰ x (sort_by less rss)
  unfolding sort_by
  mem-sort_by [] m = elim m [ ]
  mem-sort_by (a ∷ rss) (head h) = mem-insert_by a (sort_by less rss) (head h)
  mem-sort_by (a ∷ rss) (tail t) = mem-insert_by a (sort_by less rss) (tail (mem-sort_by rss t))

  pub mem_of_sort_by : (rss : List ReplicaSet) → Memᴰ x (sort_by less rss) → Memᴰ x rss
  unfolding sort_by
  mem_of_sort_by [] m = m
  mem_of_sort_by (a ∷ rss) m = elim (mem_of_insert_by a (sort_by less rss) m) [
    | head h ↦ head h
    | tail t ↦ tail (mem_of_sort_by rss t)
  ]

module _ (p : ReplicaSet → Bool) {x : ReplicaSet} where
  mem_of_filter : (rss : List ReplicaSet) → Memᴰ x (filter_replica_sets p rss) → Memᴰ x rss
  unfolding filter_replica_sets
  mem_of_filter [] = λ m. m
  mem_of_filter (a ∷ rss) = elim (Bool-cases (p a)) [
    | inr e ↦ rw e (λ m. tail (mem_of_filter rss m))
    | inl e ↦ rw e (λ m. elim m [ head h ↦ head h | tail t ↦ tail (mem_of_filter rss t) ])
  ]

  mem-filter :
      (rss : List ReplicaSet) → p x ≡ true → Memᴰ x rss → Memᴰ x (filter_replica_sets p rss)
  unfolding filter_replica_sets
  mem-filter [] px m = elim m [ ]
  mem-filter (a ∷ rss) px (head h) = rw (sym (ap p h) ∙ px) (head h)
  mem-filter (a ∷ rss) px (tail t) = elim (Bool-cases (p a)) [
    | inr e ↦ rw e (mem-filter rss px t)
    | inl e ↦ rw e (tail (mem-filter rss px t))
  ]

-- The log deletes only replica sets of `old` that are scaled to zero, observed and not deleted yet.
abbrev pub Deletes : List ReplicaSet → Log → Type 0
Deletes old [] = Unit {0}
Deletes old (update_rs rs copy ∷ log) = ⊥
Deletes old (delete_rs rs ∷ log) = (is_cleanable rs ≡ true) × Memᴰ rs old × Deletes old log

module _ (I : IntOrStrings) (api : Api) (d : Deployment I) (old : List ReplicaSet) where
  delete_loop-Deletes :
      (log : Log) (rss : List ReplicaSet)
      → ((rs : ReplicaSet) → Memᴰ rs rss → Memᴰ rs old)
      → Deletes old log
      → Deletes old (delete_loop I api d log rss).log
  unfolding delete_loop
  delete_loop-Deletes log [] sub h = h
  delete_loop-Deletes log (rs ∷ rss) sub h =
      let rest : (r : ReplicaSet) → Memᴰ r rss → Memᴰ r old = λ r m. sub r (tail m) in
      elim (Bool-cases (is_cleanable rs)) [
        | inr e ↦ rw e (delete_loop-Deletes log rss rest h)
        | inl e ↦
            let h' : Deletes old (delete_rs rs ∷ log) = (e, sub rs (head refl), h) in
            elim (Answer-cases (api log (delete_rs rs))) [
              | inr (n, f) ↦ rw (e, f) h'
              | inl (inl f) ↦ rw (e, f) (delete_loop-Deletes (delete_rs rs ∷ log) rss rest h')
              | inl (inr f) ↦ rw (e, f) (delete_loop-Deletes (delete_rs rs ∷ log) rss rest h')
            ]
      ]

  -- `cleanupOldReplicaSets` deletes only old replica sets that are scaled to zero, have no network
  -- functions left, are observed by their controller and are not being deleted. The sort returns only
  -- items of its list.
  pub cleanup_old-Deletes :
      (sort : Sort)
      → ((rs : ReplicaSet) (rss : List ReplicaSet)
          → Memᴰ rs (sort revision_before rss)
          → Memᴰ rs rss)
      → Deletes old (cleanup_old I api d sort [] old).log
  unfolding cleanup_old filter_alive filter_replica_sets
  cleanup_old-Deletes sort sorted =
      delete_loop-Deletes [] (sort revision_before (filter_alive old))
        (λ rs m. mem_of_filter (λ r. not r.deleting) old (sorted rs (filter_alive old) m)) tt

  delete_loop_keeps :
      (r : Request) (log : Log) (rss : List ReplicaSet)
      → Memᴰ r log
      → Memᴰ r (delete_loop I api d log rss).log
  unfolding delete_loop
  delete_loop_keeps r log [] m = m
  delete_loop_keeps r log (rs ∷ rss) m = elim (Bool-cases (is_cleanable rs)) [
    | inr e ↦ rw e (delete_loop_keeps r log rss m)
    | inl e ↦ elim (Answer-cases (api log (delete_rs rs))) [
      | inr (n, f) ↦ rw (e, f) (tail m)
      | inl (inl f) ↦ rw (e, f) (delete_loop_keeps r (delete_rs rs ∷ log) rss (tail m))
      | inl (inr f) ↦ rw (e, f) (delete_loop_keeps r (delete_rs rs ∷ log) rss (tail m))
    ]
  ]

  delete_loop_all :
      (x : ReplicaSet) (log : Log) (rss : List ReplicaSet)
      → Memᴰ x rss
      → is_cleanable x ≡ true
      → (delete_loop I api d log rss).error ≡ none
      → Memᴰ (delete_rs x) (delete_loop I api d log rss).log
  unfolding delete_loop
  delete_loop_all x log [] m c = elim m [ ]
  delete_loop_all x log (rs ∷ rss) m c = elim (Bool-cases (is_cleanable rs)) [
    | inr e ↦ rw e (elim m [
      | head h ↦ λ ok. absurd (true≢false (sym c ∙ ap is_cleanable h ∙ e))
      | tail t ↦ delete_loop_all x log rss t c
    ])
    | inl e ↦
        let go : (delete_loop I api d (delete_rs rs ∷ log) rss).error ≡ none
            → Memᴰ (delete_rs x) (delete_loop I api d (delete_rs rs ∷ log) rss).log =
          elim m [
            | head h ↦ λ ok.
                delete_loop_keeps (delete_rs x) (delete_rs rs ∷ log) rss (head (ap delete_rs h))
            | tail t ↦ delete_loop_all x (delete_rs rs ∷ log) rss t c
          ] in
        elim (Answer-cases (api log (delete_rs rs))) [
          | inr (n, f) ↦ rw (e, f) (λ ok. cc)
          | inl (inl f) ↦ rw (e, f) go
          | inl (inr f) ↦ rw (e, f) go
        ]
  ]

  -- If `cleanupOldReplicaSets` returns no error, it has asked for the deletion of every old replica
  -- set that is scaled to zero, has no network functions left, is observed by its controller and
  -- is not being deleted. The sort returns all items of its list.
  pub cleanup_old_all :
      (sort : Sort)
      → ((rs : ReplicaSet) (rss : List ReplicaSet)
          → Memᴰ rs rss
          → Memᴰ rs (sort revision_before rss))
      → (rs : ReplicaSet) → Memᴰ rs old
      → is_cleanable rs ≡ true
      → (cleanup_old I api d sort [] old).error ≡ none
      → Memᴰ (delete_rs rs) (cleanup_old I api d sort [] old).log
  unfolding cleanup_old filter_alive filter_replica_sets
  cleanup_old_all sort sorted rs m c =
      delete_loop_all rs [] (sort revision_before (filter_alive old))
        (sorted rs (filter_alive old) (mem-filter (λ r. not r.deleting) old (ground (arith, c)) m))
        c
