-- ===== src/Tools/Task.antt =====
-- tools/task.go: the tools Task and TaskResult, which run child agents at once or in the background.
-- The goroutines of the background tasks are steps in any order. Spans and log lines are left out.
pub mod Steps
pub mod Slots
pub mod Results
mod Tests
use squad.Base.{
  ℕ, zero, suc, ◌+◌, ◌*◌, ◌<◌, ◌≡◌, ◌==◌, List, [], ◌∷◌, ◌++◌, Bool, true, false, not, Option, none,
  some, Result, ok, err, ◌>>=◌, ◌>>◌, refuse_if, if◌then◌else◌, length, take, ltb, leb,
}
use squad.Base.Int.{ℤ, pos, negsuc}
use squad.Base.Chars.{Chars, bytes, same_text}
use squad.Pipeline.Handoff.{decimal}

abbrev pub max_task_depth : ℕ
max_task_depth = 3

abbrev pub default_concurrent_tasks : ℕ
default_concurrent_tasks = 4

abbrev pub max_tool_output : ℕ
max_tool_output = 64 * 1024

-- `make(chan struct{}, concurrency)`
unfoldable pub concurrent_tasks : ℤ → ℕ
concurrent_tasks (pos zero) = default_concurrent_tasks
concurrent_tasks (pos (suc n)) = suc n
concurrent_tasks (negsuc n) = default_concurrent_tasks

pub record TaskArgs : Type 0 where
  pub agent : Chars
  pub prompt : Chars
  pub mode : Chars
  pub working_dir : Chars
  pub background : Bool

pub data TaskError : Type 0 where
  no_agent no_prompt too_deep no_registry no_task_id : TaskError
  invalid_args invalid_working_dir unknown_task : Chars → TaskError
  child_failed task_failed : Chars → Chars → TaskError

abbrev pub truncated : Chars
truncated = bytes "\n...output truncated"

-- The first 64 KiB of a longer text.
unfoldable pub capped_output : Chars → Chars
capped_output s = if ltb max_tool_output (length s) then take max_tool_output s ++ truncated else s

unfoldable pub is_nil : Chars → Bool
is_nil [] = true
is_nil (c ∷ s) = false

-- `M` stands for what a run's metrics record.
module _ (M : Type 0) where
  -- What `CallModel` returns.
  pub record Answer : Type 0 where
    pub response : Chars
    pub metrics : Option M
    pub error : Option Chars

  pub record BackgroundTaskResult : Type 0 where
    pub output : Chars
    pub metrics : Option M
    pub error : Option Chars

  -- A background task before it has a place in the semaphore, while its child runs, and after `Done`
  -- is closed.
  pub data Progress : Type 0 where
    queued : Progress
    running : Progress
    done : BackgroundTaskResult → Progress

  pub record BackgroundTask : Type 0 where
    pub number : ℕ
    pub args : TaskArgs
    pub work_dir : Chars
    pub depth : ℕ
    pub progress : Progress

  -- The registry, and the children in the metrics of the parent.
  pub record Registry : Type 0 where
    pub counter : ℕ
    pub tasks : List BackgroundTask
    pub children : List (Chars × M)

  abbrev pub new_background_task_registry : Registry
  new_background_task_registry = record { counter = 0; tasks = []; children = [] }

  unfoldable pub task_id : ℕ → Chars
  task_id n = bytes "bg-" ++ decimal n

  -- `SpawnTask`; the depth is that of the child.
  unfoldable pub spawn_task : TaskArgs → Chars → ℕ → Registry → Chars × Registry
  unfolding task_id
  spawn_task args work_dir depth r = (
    task_id (suc r.counter),
    record r {
      counter = suc r.counter;
      tasks =
          r.tasks
          ++ record {
            number = suc r.counter;
            args = args;
            work_dir = work_dir;
            depth = depth;
            progress = queued;
          }
            ∷ [];
    },
  )

  unfoldable pub add_child : Chars → Option M → List (Chars × M) → List (Chars × M)
  add_child name none cs = cs
  add_child name (some m) cs = cs ++ (name, m) ∷ []

  -- `ResolvePath` below the working directory of the run, and the model at a depth.
  module _ (resolve_path : Chars → Result Chars Chars) (working_dir : Chars) (has_registry : Bool)
      (call_model : ℕ → TaskArgs → Chars → Answer) where
    unfoldable pub work_dir_of : TaskArgs → Result TaskError Chars
    unfolding is_nil
    work_dir_of args =
        if is_nil args.working_dir then ok working_dir else elim (resolve_path args.working_dir) [
          | ok d ↦ ok d
          | err e ↦ err (invalid_working_dir e)
        ]

    unfoldable pub check_task : ℕ → TaskArgs → Result TaskError Chars
    unfolding is_nil work_dir_of
    check_task depth args =
        refuse_if (is_nil args.agent) no_agent
        >> (refuse_if (is_nil args.prompt) no_prompt
            >> (refuse_if (leb max_task_depth depth) too_deep >> work_dir_of args))

    abbrev pub started : Chars → Chars
    started id =
        bytes "Task started in background. Task ID: "
        ++ id
        ++ bytes "\nUse TaskResult(task_id=\""
        ++ id
        ++ bytes "\") to collect the output when ready."

    unfoldable pub in_background :
        ℕ → TaskArgs → Chars → Registry → Result TaskError Chars × Registry
    unfolding spawn_task
    in_background depth args work_dir r =
        if has_registry
        then (
          ok (started (spawn_task args work_dir (suc depth) r).0),
          (spawn_task args work_dir (suc depth) r).1,
        )
        else (err no_registry, r)

    unfoldable pub settle_child : TaskArgs → Answer → Registry → Result TaskError Chars × Registry
    unfolding capped_output add_child
    settle_child args a r = elim a.error [
      | some e ↦ (err (child_failed args.agent e), r)
      | none ↦ (
        ok (capped_output a.response),
        record r { children = add_child args.agent a.metrics r.children },
      )
    ]

    unfoldable pub run_task :
        ℕ → TaskArgs → Result TaskError Chars → Registry → Result TaskError Chars × Registry
    unfolding in_background settle_child
    run_task depth args (err e) r = (err e, r)
    run_task depth args (ok work_dir) r =
        if args.background
        then in_background depth args work_dir r
        else settle_child args (call_model (suc depth) args work_dir) r

    unfoldable pub task_tool :
        ℕ → Result Chars TaskArgs → Registry → Result TaskError Chars × Registry
    unfolding run_task check_task
    task_tool depth (err e) r = (err (invalid_args e), r)
    task_tool depth (ok args) r = run_task depth args (check_task depth args) r

  unfoldable pub find_task : Chars → List BackgroundTask → Option BackgroundTask
  unfolding task_id
  find_task id [] = none
  find_task id (t ∷ ts) =
      let later = find_task id ts in if same_text (task_id t.number) id then some t else later

  unfoldable pub collect :
      Chars → BackgroundTaskResult → Registry → Result TaskError Chars × Registry
  unfolding add_child
  collect id result r = elim result.error [
    | some e ↦ (err (task_failed id e), r)
    | none ↦ (ok result.output, record r { children = add_child id result.metrics r.children })
  ]

  -- No result means that the tool waits.
  unfoldable pub collect_task :
      Chars → Option BackgroundTask → Registry → Option (Result TaskError Chars × Registry)
  unfolding collect
  collect_task id none r = some (err (unknown_task id), r)
  collect_task id (some t) r = elim t.progress [
    | done result ↦ some (collect id result r)
    | _ ↦ none
  ]

  unfoldable pub task_result_tool :
      Bool → Result Chars Chars → Registry → Option (Result TaskError Chars × Registry)
  unfolding find_task collect_task is_nil
  task_result_tool has_registry (err e) r = some (err (invalid_args e), r)
  task_result_tool has_registry (ok id) r =
      if is_nil id
      then some (err no_task_id, r)
      else if has_registry
      then collect_task id (find_task id r.tasks) r
      else some (err no_registry, r)
