-- ===== src/Tools/Task/Results.antt =====
-- What TaskResult of tools/task.go answers once a background task has ended.
use squad.Base.{◌≡◌, Option, some}
use squad.Base.Chars.{Chars}
use squad.Tools.Task.{BackgroundTaskResult, BackgroundTask, done, Registry, find_task}
use squad.Tools.Task.Steps.{Steps}

module _ (M : Type 0) where
  -- The task that an id names has ended, with a result.
  abbrev pub HasEnded : Registry M → Chars → BackgroundTaskResult M → Type 0
  HasEnded r id result =
      (u : BackgroundTask M) × (find_task M id r.tasks ≡ some u) × (u.progress ≡ done result)
