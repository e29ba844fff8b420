-- ===== src/Janitor/Stack.antt =====
-- janitor.go: the callbacks run as a stack, and all of them run.
use iml.Common.{◌≡◌, ap, ◌∙◌, sym, Option, some, List, [], ◌∷◌, ◌++◌}
use mathlib.Core.List.{append-nil, append_assoc}
use iml.Janitor.{Callback, Janitor, to_list, add, run_back, cleanup}

module _ (Host E : Type 0) where
  run_back-append :
      (cbs : List (Callback Host E)) (cb : Callback Host E) (h : Host)
      → run_back Host E (cbs ++ cb ∷ []) h ≡ (
          let r = cb h in
          let rest = run_back Host E cbs r.0 in (rest.0, to_list Host E r.1 ++ rest.1))
  unfolding run_back
  run_back-append [] cb h = ap (λ l. ((cb h).0, l)) (sym (append-nil (to_list Host E (cb h).1)))
  run_back-append (c ∷ cbs) cb h =
      let p = run_back Host E cbs (cb h).0 in
      ap (λ q. ((c q.0).0, q.1 ++ to_list Host E (c q.0).1)) (run_back-append cbs cb h)
      ∙ ap (λ l. ((c p.0).0, l))
          (append_assoc (to_list Host E (cb h).1) p.1 (to_list Host E (c p.0).1))

  -- `Cleanup` first runs the callback that was added last, and then, on the host that it leaves and
  -- whatever error it returns, does what it would have done without it; the error comes first.
  pub cleanup-add :
      (timed_out : Host → Option E) (j : Janitor Host E) (cb : Callback Host E) (h : Host)
      → cleanup Host E timed_out (add Host E j (some cb)) h ≡ (
          let r = cb h in
          let rest = cleanup Host E timed_out j r.0 in (rest.0, to_list Host E r.1 ++ rest.1))
  unfolding cleanup add
  cleanup-add timed_out j cb h =
      let p = run_back Host E j.callbacks (cb h).0 in
      ap (λ q. (q.0, q.1 ++ to_list Host E (timed_out q.0))) (run_back-append j.callbacks cb h)
      ∙ ap (λ l. (p.0, l))
          (append_assoc (to_list Host E (cb h).1) p.1 (to_list Host E (timed_out p.0)))
