-- ===== src/Janitor.antt =====
-- daemon/pkg/janitor/janitor.go: the callbacks that undo what the daemon has set up. A callback
-- changes the host and may return an error; the error of the expired context is a parameter that
-- reads the host after the last callback. The result is the list that errors.Join is given, which
-- makes no error of the empty list.
pub mod Stack
mod Tests
use iml.Common.{Option, none, some, List, [], ◌∷◌, ◌++◌}

module _ (Host E : Type 0) where
  abbrev pub Callback : Type 0
  Callback = Host → Host × Option E

  pub record Janitor : Type 0 where
    pub callbacks : List Callback

  abbrev pub new_janitor : Janitor
  new_janitor = record { callbacks = [] }

  abbrev pub to_list : Option E → List E
  to_list none = []
  to_list (some e) = e ∷ []

  -- `Add`, which ignores a nil callback.
  unfoldable pub add : Janitor → Option Callback → Janitor
  add j none = j
  add j (some cb) = record { callbacks = j.callbacks ++ cb ∷ [] }

  -- The loop of `Cleanup`, from the last callback to the first.
  unfoldable pub run_back : List Callback → Host → Host × List E
  run_back [] h = (h, [])
  run_back (cb ∷ cbs) h =
      let later = run_back cbs h in let r = cb later.0 in (r.0, later.1 ++ to_list r.1)

  unfoldable pub cleanup : (Host → Option E) → Janitor → Host → Host × List E
  unfolding run_back
  cleanup timed_out j h = let r = run_back j.callbacks h in (r.0, r.1 ++ to_list (timed_out r.0))
