-- ===== src/Janitor/Tests.antt =====
-- A janitor whose callbacks note that they have run.
use iml.Common.{ℕ, Option, none, some, List, [], ◌∷◌}
use iml.Janitor.{Callback, Janitor}

abbrev noting : ℕ → Callback (List ℕ) ℕ
noting n h = (n ∷ h, some n)

abbrev in_time : List ℕ → Option ℕ
in_time h = none

abbrev two_callbacks : Janitor (List ℕ) ℕ
two_callbacks = record { callbacks = noting 1 ∷ noting 2 ∷ [] }
