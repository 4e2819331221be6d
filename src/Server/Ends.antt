-- ===== src/Server/Ends.antt =====
-- The history walks of crates/auru-pm-server/src/main.rs end.
use auru_pm_core.Server.Store.{World, StoredProject}
use auru_pm_core.Server.Handlers.{HistoryRow}
use auru_pm_core.Commit.{Content}
use auru_pm_core.Prelude.{◌≡◌, Text, List, Option, some, true, Map, contains, ℕ, is_none}
use mathlib.Core.Option
use auru_pm_core.Server.Grown.{Grown}
use auru_pm_core.Server.History.{history_walk, retention_walk, walk_fuel, default_limit}

module _ (commits : Map Content) where
  -- If the cursor is owned, it is among `l`.
  abbrev IsWithin : List Text → List Text → Option Text → Type 0
  IsWithin owned l cursor =
      (id : Text) → cursor ≡ some id → contains owned id ≡ true → contains l id ≡ true

-- The loop of a retention request, for the project that was found.
abbrev found_walk : World → StoredProject → Option (List (Text × Content))
found_walk w project =
    retention_walk w.db.saved.commits project.commits project.history_floor
      (walk_fuel project.commits) project.head

-- The loop of a history request, for the project that was found.
abbrev found_rows : World → StoredProject → Option ℕ → Option Text → Option (List HistoryRow)
found_rows w project limit before =
    history_walk w.db.saved.commits project.commits project.history_floor
      (walk_fuel project.commits) (record { limit = default_limit limit; before = before })
      (is_none before) 0 project.head
