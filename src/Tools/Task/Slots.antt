-- ===== src/Tools/Task/Slots.antt =====
-- How many background tasks of tools/task.go run at once, how deep, and how long what they return is.
use squad.Base.{
  ℕ, suc, ◌+◌, ◌≤◌, ◌≡◌, refl, sym, subst, inl, inr, List, [], ◌∷◌, ◌++◌, Bool, true, false, Option,
  none, some, Result, ok, err, Bool-cases, Option-cases, ltb, leb, arith, length, length-append,
  length-take, if◌then◌else◌, refuse_inv, take,
}
use squad.Base.Int.{ℤ}
use squad.Base.All.{All, All-append, All-append_left, All-append_right}
use squad.Base.Chars.{Chars}
use squad.Tools.Task.{
  TaskArgs, TaskError, no_agent, no_prompt, too_deep, Answer, BackgroundTaskResult, BackgroundTask,
  Progress, queued, running, done, Registry, new_background_task_registry, task_tool, run_task,
  check_task, in_background, settle_child, spawn_task, task_result_tool, collect_task, collect,
  find_task, max_task_depth, max_tool_output, capped_output, truncated, concurrent_tasks, is_nil,
}
use squad.Tools.Task.Steps.{
  call_task, call_task_result, acquire, give_up, finish_task, recover, here, next, at, with_tasks,
  is_running, running_tasks, stopped, background_result, Step, Steps,
}

length-capped_output : (s : Chars) → length (capped_output s) ≤ max_tool_output + length truncated
unfolding capped_output
length-capped_output s = elim (Bool-cases (ltb max_tool_output (length s))) [
  | inl p ↦ rw p (
      omega
        (arith, length-append (take max_tool_output s) truncated, length-take max_tool_output s))
  | inr n ↦ rw n (grind arith)
]

module _ (M : Type 0) where
  running_tasks-append :
      (xs ys : List (BackgroundTask M))
      → running_tasks M (xs ++ ys) ≡ running_tasks M xs + running_tasks M ys
  unfolding running_tasks
  running_tasks-append [] ys = omega arith
  running_tasks-append (t ∷ xs) ys = ground (arith, running_tasks-append xs ys)

  -- A task whose result is ready has a text of 64 KiB and the note on the rest, at most.
  abbrev IsCapped : Progress M → Type 0
  IsCapped (done result) = length result.output ≤ max_tool_output + length truncated
  IsCapped queued = Unit
  IsCapped running = Unit

  abbrev pub IsBounded : BackgroundTask M → Type 0
  IsBounded t = (t.depth ≤ max_task_depth) × IsCapped t.progress

  module _ (resolve_path : Chars → Result Chars Chars) (concurrency : ℤ) where
    pub record Bounded (r : Registry M) : Type 0 where
      places : running_tasks M r.tasks ≤ concurrent_tasks concurrency
      tasks : All IsBounded r.tasks

    check_task-depth :
        (working_dir : Chars) (call_model : ℕ → TaskArgs → Chars → Answer M) (depth : ℕ)
        (args : TaskArgs) (d : Chars)
        → check_task M resolve_path working_dir true call_model depth args ≡ ok d
        → suc depth ≤ max_task_depth
    unfolding check_task
    check_task-depth working_dir call_model depth args d h =
        let (_, h1) = refuse_inv (is_nil args.agent) no_agent _ d h in
        let (_, h2) = refuse_inv (is_nil args.prompt) no_prompt _ d h1 in
        let (shallow, _) = refuse_inv (leb max_task_depth depth) too_deep _ d h2 in ground arith

    spawn_task-Bounded :
        (args : TaskArgs) (d : Chars) (depth : ℕ) (r : Registry M)
        → depth ≤ max_task_depth
        → Bounded r
        → Bounded (spawn_task M args d depth r).1
    unfolding spawn_task running_tasks is_running
    spawn_task-Bounded args d depth r le v = record {
      places = rw (running_tasks-append r.tasks _) (omega (arith, v.places));
      tasks = All-append IsBounded r.tasks _ v.tasks ((le, tt), tt);
    }

    either-Bounded :
        (b : Bool) (x y : Result TaskError Chars × Registry M)
        → Bounded x.1
        → Bounded y.1
        → Bounded (if b then x else y).1
    either-Bounded true x y v w = v
    either-Bounded false x y v w = w

    run_task-Bounded :
        (working_dir : Chars) (call_model : ℕ → TaskArgs → Chars → Answer M) (depth : ℕ)
        (args : TaskArgs) (checked : Result TaskError Chars) (r : Registry M)
        → ((d : Chars) → checked ≡ ok d → suc depth ≤ max_task_depth)
        → Bounded r
        → Bounded (run_task M resolve_path working_dir true call_model depth args checked r).1
    unfolding run_task in_background settle_child
    run_task-Bounded working_dir call_model depth args (err e) r le v = v
    run_task-Bounded working_dir call_model depth args (ok d) r le v =
        either-Bounded args.background _ _ (spawn_task-Bounded args d (suc depth) r (le d refl) v)
          (settled (call_model (suc depth) args d))
      where
        settled :
            (a : Answer M)
            → Bounded (settle_child M resolve_path working_dir true call_model args a r).1
        settled a = elim (Option-cases a.error) [
          | inl n ↦ rw n (record { places = v.places; tasks = v.tasks })
          | inr (e, s) ↦ rw s v
        ]

    -- The tasks after a call of TaskResult, which changes none.
    abbrev tasks_after :
        Registry M → Option (Result TaskError Chars × Registry M) → List (BackgroundTask M)
    tasks_after r none = r.tasks
    tasks_after r (some (_, r')) = r'.tasks

    collect-tasks :
        (id : Chars) (o : Option (BackgroundTask M)) (r : Registry M)
        → tasks_after r (collect_task M id o r) ≡ r.tasks
    unfolding collect_task collect
    collect-tasks id none r = refl
    collect-tasks id (some t) r = by_progress t.progress
      where
        by_progress :
            (p : Progress M) → tasks_after r (collect_task M id (some (at M t p)) r) ≡ r.tasks
        by_progress queued = refl
        by_progress running = refl
        by_progress (done result) = elim (Option-cases result.error) [
          | inl n ↦ rw n refl
          | inr (e, s) ↦ rw s refl
        ]

    task_result_tool-tasks :
        (raw : Result Chars Chars) (r : Registry M)
        → tasks_after r (task_result_tool M true raw r) ≡ r.tasks
    unfolding task_result_tool
    task_result_tool-tasks (err e) r = refl
    task_result_tool-tasks (ok id) r = elim (Bool-cases (is_nil id)) [
      | inl e ↦ rw e refl
      | inr e ↦ rw e (collect-tasks id (find_task M id r.tasks) r)
    ]

    pub task_result_tool-same :
        (raw : Result Chars Chars) (out : Result TaskError Chars) (r r' : Registry M)
        → task_result_tool M true raw r ≡ some (out, r')
        → r'.tasks ≡ r.tasks
    task_result_tool-same raw out r r' h =
        let k : tasks_after r (some (out, r')) ≡ r.tasks = rw h at (task_result_tool-tasks raw r) in
        k

    Bounded-put :
        (r : Registry M) (before after : List (BackgroundTask M)) (t : BackgroundTask M)
        (old new : Progress M)
        → r.tasks ≡ before ++ at M t old ∷ after
        → IsCapped new
        → running_tasks M (before ++ at M t new ∷ after) ≤ concurrent_tasks concurrency
        → Bounded r
        → Bounded (with_tasks M (before ++ at M t new ∷ after) r)
    Bounded-put r before after t old new e capped places v =
        let a : All IsBounded (before ++ at M t old ∷ after) = subst (All IsBounded) e v.tasks in
        record {
          places = places;
          tasks =
              All-append IsBounded before (at M t new ∷ after)
                (All-append_left IsBounded before (at M t old ∷ after) a)
                (
                  ((All-append_right IsBounded before (at M t old ∷ after) a).0.0, capped),
                  (All-append_right IsBounded before (at M t old ∷ after) a).1,
                );
        }

    freed :
        (before after : List (BackgroundTask M)) (t : BackgroundTask M) (old : Progress M)
        (result : BackgroundTaskResult M) (r : Registry M)
        → r.tasks ≡ before ++ at M t old ∷ after
        → Bounded r
        → running_tasks M (before ++ at M t (done result) ∷ after) ≤ concurrent_tasks concurrency
    unfolding running_tasks is_running
    freed before after t old result r e v =
        let k = rw (e, running_tasks-append before (at M t old ∷ after)) at v.places in
        rw (running_tasks-append before (at M t (done result) ∷ after)) (grind arith)

    IsCapped-stop : (why : Chars) → IsCapped (done (stopped M why))
    unfolding stopped
    IsCapped-stop why = omega arith

    Step-Bounded :
        (r r' : Registry M) → Step M resolve_path concurrency r r' → Bounded r → Bounded r'
    unfolding running_tasks is_running task_tool background_result
    Step-Bounded r r' (call_task working_dir call_model depth (err e)) v = v
    Step-Bounded r r' (call_task working_dir call_model depth (ok args)) v =
        run_task-Bounded working_dir call_model depth args _ r
          (check_task-depth working_dir call_model depth args) v
    Step-Bounded r r' (call_task_result raw out r'' e) v =
        let same = task_result_tool-same raw out r r'' e in
        record {
          places =
              subst (λ ts. running_tasks M ts ≤ concurrent_tasks concurrency) (sym same) v.places;
          tasks = subst (All IsBounded) (sym same) v.tasks;
        }
    Step-Bounded r r' (acquire before after t e room) v =
        Bounded-put r before after t queued running e tt
          (let k = rw (e, running_tasks-append before (at M t queued ∷ after)) at room in
            rw (running_tasks-append before (at M t running ∷ after)) (omega arith))
          v
    Step-Bounded r r' (give_up before after t why e) v =
        Bounded-put r before after t queued (done (stopped M why)) e (IsCapped-stop why)
          (freed before after t queued (stopped M why) r e v) v
    Step-Bounded r r' (finish_task before after t a e) v =
        Bounded-put r before after t running (done (background_result M a)) e
          (length-capped_output a.response)
          (freed before after t running (background_result M a) r e v) v
    Step-Bounded r r' (recover before after t why e) v =
        Bounded-put r before after t running (done (stopped M why)) e (IsCapped-stop why)
          (freed before after t running (stopped M why) r e v) v

    start-Bounded : Bounded (new_background_task_registry M)
    unfolding running_tasks
    start-Bounded = record { places = omega arith; tasks = tt }

    -- In each state that calls of the tools, at whatever depth, and the background tasks, in
    -- whatever order, lead to: no more children run in the background at once than the registry
    -- has places for; none of them is deeper than the maximum; and what is kept of a child's
    -- answer has 64 KiB and the note on the rest, at most.
    pub Steps-Bounded :
        (r : Registry M)
        → Steps M resolve_path concurrency (new_background_task_registry M) r
        → Bounded r
    Steps-Bounded r here = start-Bounded
    Steps-Bounded r (next {p = p} s t) = Step-Bounded p r t (Steps-Bounded p s)
