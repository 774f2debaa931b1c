-- ===== src/Tools/Task/Steps.antt =====
-- tools/task.go: what happens to the registry of background tasks, as steps in any order.
use squad.Tools.Task.{
  Registry, BackgroundTask, Progress, queued, running, done, Answer, BackgroundTaskResult, TaskArgs,
  TaskError, task_tool, task_result_tool, concurrent_tasks, capped_output,
}
use squad.Base.{
  ℕ, suc, ◌<◌, ◌≡◌, List, [], ◌∷◌, ◌++◌, Bool, true, false, none, some, Result, if◌then◌else◌,
}
use squad.Base.Int.{ℤ}
use squad.Base.Chars.{Chars}

module _ (M : Type 0) where
  abbrev pub at : BackgroundTask M → Progress M → BackgroundTask M
  at t p = record t { progress = p }

  abbrev pub with_tasks : List (BackgroundTask M) → Registry M → Registry M
  with_tasks ts r = record r { tasks = ts }

  unfoldable pub is_running : Progress M → Bool
  is_running running = true
  is_running _ = false

  -- How many places of the semaphore are taken.
  unfoldable pub running_tasks : List (BackgroundTask M) → ℕ
  unfolding is_running
  running_tasks [] = 0
  running_tasks (t ∷ ts) =
      let rest = running_tasks ts in if is_running t.progress then suc rest else rest

  unfoldable pub stopped : Chars → BackgroundTaskResult M
  stopped e = record { output = []; metrics = none; error = some e }

  unfoldable pub background_result : Answer M → BackgroundTaskResult M
  unfolding capped_output
  background_result a = record {
    output = capped_output a.response;
    metrics = a.metrics;
    error = a.error;
  }

  -- What happens to the registry: a call of one of the two tools, at any depth; a place for a task;
  -- the end of the context before; the end of a child; a panic.
  module _ (resolve_path : Chars → Result Chars Chars) (concurrency : ℤ) where
    pub data Step (r : Registry M) : Registry M → Type 0 where
      call_task :
          (working_dir : Chars) (call_model : ℕ → TaskArgs → Chars → Answer M) (depth : ℕ)
          (raw : Result Chars TaskArgs)
          → Step r (task_tool M resolve_path working_dir true call_model depth raw r).1
      call_task_result :
          (raw : Result Chars Chars) (out : Result TaskError Chars) (r' : Registry M)
          → task_result_tool M true raw r ≡ some (out, r')
          → Step r r'
      acquire :
          (before after : List (BackgroundTask M)) (t : BackgroundTask M)
          → r.tasks ≡ before ++ at t queued ∷ after
          → running_tasks r.tasks < concurrent_tasks concurrency
          → Step r (with_tasks (before ++ at t running ∷ after) r)
      give_up :
          (before after : List (BackgroundTask M)) (t : BackgroundTask M) (e : Chars)
          → r.tasks ≡ before ++ at t queued ∷ after
          → Step r (with_tasks (before ++ at t (done (stopped e)) ∷ after) r)
      finish_task :
          (before after : List (BackgroundTask M)) (t : BackgroundTask M) (a : Answer M)
          → r.tasks ≡ before ++ at t running ∷ after
          → Step r (with_tasks (before ++ at t (done (background_result a)) ∷ after) r)
      recover :
          (before after : List (BackgroundTask M)) (t : BackgroundTask M) (e : Chars)
          → r.tasks ≡ before ++ at t running ∷ after
          → Step r (with_tasks (before ++ at t (done (stopped e)) ∷ after) r)

    pub data Steps (r : Registry M) : Registry M → Type 0 where
      here : Steps r r
      next : {p q : Registry M} → Steps r p → Step p q → Steps r q
