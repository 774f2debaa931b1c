-- ===== src/Tools/Task/Tests.antt =====
-- A background task of tools/task.go, from its call to its result.
use squad.Base.{◌≡◌, refl, [], ◌∷◌, true, none, some, Result, ok, err, ℕ, arith, ◌<◌}
use squad.Base.Int.{pos}
use squad.Base.Chars.{Chars, bytes}
use squad.Tools.Task.{
  TaskArgs, too_deep, Answer, BackgroundTask, queued, running, done, Registry,
  new_background_task_registry, task_tool, spawn_task, concurrent_tasks,
}
use squad.Tools.Task.Steps.{
  here, next, call_task, acquire, finish_task, Steps, background_result, running_tasks,
}
use squad.Tools.Task.Slots.{Bounded, Steps-Bounded}

abbrev lint : TaskArgs
lint = record {
  agent = bytes "lint";
  prompt = bytes "check a.go";
  mode = [];
  working_dir = [];
  background = true;
}

abbrev work : Chars
work = bytes "/work"

abbrev no_paths : Chars → Result Chars Chars
no_paths p = err (bytes "outside")

abbrev clean : Answer ℕ
clean = record { response = bytes "no findings"; metrics = some 120; error = none }

abbrev answer_all : ℕ → TaskArgs → Chars → Answer ℕ
answer_all depth args d = clean

abbrev none_yet : Registry ℕ
none_yet = new_background_task_registry ℕ

abbrev task : BackgroundTask ℕ
task = record { number = 1; args = lint; work_dir = work; depth = 1; progress = queued }

abbrev after_call : Registry ℕ
after_call = (task_tool ℕ no_paths work true answer_all 0 (ok lint) none_yet).1

too_deep_run : (task_tool ℕ no_paths work true answer_all 3 (ok lint) none_yet).0 ≡ err too_deep
unfolding task_tool bytes
too_deep_run = refl

after_call_tasks : after_call.tasks ≡ task ∷ []
unfolding task_tool bytes spawn_task
after_call_tasks = refl

abbrev task_running : Registry ℕ
task_running = record after_call { tasks = record task { progress = running } ∷ [] }

abbrev task_ended : Registry ℕ
task_ended = record after_call {
  tasks = record task { progress = done (background_result ℕ clean) } ∷ [];
}

one_place : running_tasks ℕ after_call.tasks < concurrent_tasks (pos 1)
unfolding task_tool bytes spawn_task running_tasks concurrent_tasks
one_place = omega arith

whole_run : Steps ℕ no_paths (pos 1) none_yet task_ended
whole_run =
    next
      (next (next here (call_task work answer_all 0 (ok lint)))
        (acquire [] [] task after_call_tasks one_place))
      (finish_task [] [] task clean refl)

Steps-Bounded_example : Bounded ℕ no_paths (pos 1) task_ended
Steps-Bounded_example = Steps-Bounded ℕ no_paths (pos 1) task_ended whole_run

abbrev bg_1 : Chars
bg_1 = bytes "bg-1"

abbrev called_again : Registry ℕ
called_again = (task_tool ℕ no_paths work true answer_all 1 (ok lint) task_ended).1
