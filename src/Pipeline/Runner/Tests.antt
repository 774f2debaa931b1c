-- ===== src/Pipeline/Runner/Tests.antt =====
-- A run of two stages whose agents spend all that they may, and the theorems at it.
use mathlib.Core.List.{flatten}
use squad.Base.{
  err, ◌⊎◌, ok, ℕ, String, List, [], ◌∷◌, ◌++◌, Bool, true, false, Option, none, some, ◌≡◌, refl,
  ◌↔◌, arith, inl, inr,
}
use squad.Base.Text.{eq_iff}
use squad.Base.Int.{ℤ, pos, ◌≤ℤ◌, ◌+ℤ◌, ltb_ℤ}
use squad.Base.Dict.{lookup, Dict, MapOrder, list_order}
use squad.Base.All.{All, In, Distinct}
use squad.Pipeline.{Cost, Stage, Pipeline, Gate, gates_after}
use squad.Pipeline.Cycle.Acyclic.{names_of}
use squad.Pipeline.Order.{topological_order}
use squad.Pipeline.Tests.{fix, lint, two_stages, two_stages-IsValid}
use squad.Pipeline.Runner.{
  skipped, codes, remaining_budget, AgentResult, pipeline_max_cost_var, Env, State, VarValue, text,
  cost, charge, add_spent, is_exhausted, effective_cap, passed, failed,
}
use squad.Pipeline.Runner.Context.{pre_gate_failed, StageResult}
use squad.Pipeline.Runner.Stages.{ended, run_stage}
use squad.Pipeline.Runner.Run.{Report, RunError, run, settle_result, start}
use squad.Pipeline.Runner.Outcome.{result_names, HasNotFailed}
use squad.Pipeline.Runner.Reports.{run_reports, run_passed}
use squad.Pipeline.Runner.Interleaved.{
  Budget, Steps, here, next, check, begin, begin_late, end, end_late, no_agent, steps_within,
}
use squad.Pipeline.Runner.Interleaved.Sums.{times}
use squad.Pipeline.Runner.Handoffs.{FirstStops, here, later, run_stage_skips}
use squad.Pipeline.Runner.Gates.{GatesPass, settle_result_iff}

abbrev spend_all : Option VarValue → Option Cost
spend_all none = none
spend_all (some (text s)) = none
spend_all (some (cost c)) = some c

-- The commands succeed, and git shows a change.
abbrev spenders : Cost → Env (Unit {0})
spenders limit = record {
  run_agent = λ agent prompt mode vars w. (
    record {
      output = [];
      metrics = spend_all (lookup pipeline_max_cost_var vars);
      is_error = false;
      reported = [];
    },
    w,
  );
  run_command = λ command w. (record { printed = []; is_error = false }, w);
  git_diff = λ w. (none, w);
  summarize = none;
  expand = λ p w. ok [];
  marshal = λ findings. none;
  prompt = [];
  max_cost = limit;
}

run_reports_example :
    (report : Report) × (error : Option RunError) × (tiers : List (List Stage)) × (rest : List
      String)
    × (run (spenders (pos 10)) two_stages (list_order ℤ) tt ≡ some (report, error))
    × (topological_order (list_order ℤ) two_stages.stages ≡ some tiers)
    × (result_names report.stages ++ rest ≡ names_of (flatten tiers))
run_reports_example =
    run_reports (spenders (pos 10)) (list_order ℤ) two_stages two_stages-IsValid tt

-- One agent after the other.
abbrev one_by_one : List (List Stage)
one_by_one = (lint ∷ []) ∷ (record lint { name = "check" } ∷ []) ∷ []

not_spent : is_exhausted (pos 10) (pos 4) ≡ false
unfolding remaining_budget squad.Base.Int.◌-ℤ◌
not_spent = refl

-- Without a limit the run passes.
abbrev answer : String → AgentResult
answer name = record { agent = codes name; status = passed; output = [] }

abbrev unlimited_report : Report
unlimited_report = record {
  pipeline = "review";
  version = "1";
  status = passed;
  stages =
      record { name = "lint"; status = passed; agents = answer "linter" ∷ []; error = none }
      ∷ record {
        name = "fix";
        status = passed;
        agents = answer "fixer" ∷ answer "tester" ∷ [];
        error = none;
      }
      ∷ [];
  findings = [];
}

unlimited_run : run (spenders (pos 0)) two_stages (list_order ℤ) tt ≡ some (unlimited_report, none)
unfolding run squad.Base.Dict.erase squad.Pipeline.Runner.Stages.conclude
    squad.Pipeline.Runner.Stages.first_failed
unlimited_run = refl

run_passed_example :
    Distinct (result_names unlimited_report.stages)
    × ((n : String)
        → In n (result_names unlimited_report.stages) ↔ In n (names_of two_stages.stages))
    × All HasNotFailed unlimited_report.stages
run_passed_example =
    run_passed (spenders (pos 0)) (list_order ℤ) two_stages two_stages-IsValid tt unlimited_report
      unlimited_run

abbrev fixed : StageResult
fixed = record { name = "fix"; status = passed; agents = []; error = none }

settle_result_iff_example :
    ((settle_result
        (spenders (pos 10))
        two_stages
        fixed
        (start (spenders (pos 10)) two_stages tt)).error
      ≡ none)
    ↔ (HasNotFailed fixed × GatesPass (spenders (pos 10)) (gates_after two_stages.gates "fix") tt)
settle_result_iff_example =
    settle_result_iff (spenders (pos 10)) two_stages fixed (start (spenders (pos 10)) two_stages tt)
      refl

abbrev long_answer : AgentResult
long_answer = record { agent = codes "linter"; status = passed; output = codes "ok" }

abbrev begun : State (Unit {0})
begun = record { spent = pos 0; sum_cache = []; findings = []; world = tt }

-- The tester's output is shortened in between.
abbrev between : List (Stage × String × AgentResult)
between = (fix, "fix", record long_answer { agent = codes "tester" }) ∷ []

-- Every command fails.
abbrev failing : Env (Unit {0})
failing = record (spenders (pos 10)) {
  run_command = λ command w. (record { printed = []; is_error = true }, w);
}

abbrev guarded : Stage
guarded = record lint {
  pre_gates =
      record { command = "make fmt"; label = ""; on_error = "continue" }
      ∷ record { command = "make vet"; label = ""; on_error = "stop" }
      ∷ [];
}

vet_stops : FirstStops failing guarded.pre_gates tt tt
vet_stops =
    later
      (λ h. elim h.1 [
        | inl e ↦ absurd (let k = (eq_iff "continue" "skip").1 e in cc)
        | inr e ↦ absurd (let k = (eq_iff "continue" "stop").1 e in cc)
      ])
      (here (refl, inr refl))

run_stage_skips_example :
    run_stage failing [] guarded [] begun ≡ (ended "lint" skipped pre_gate_failed, begun)
run_stage_skips_example = run_stage_skips failing [] guarded [] begun tt vet_stops

-- Two agents that pass the check together and read their caps together spend the budget twice; a
-- third that has passed it as well then finds nothing left.
abbrev busy : ℕ → List Cost → ℕ → Cost → Cost → Budget
busy checked running late spent late_spent = record {
  spent = spent;
  checked = checked;
  running = running;
  late = late;
  late_spent = late_spent;
}

all_end : Steps (pos 10) 3 no_agent (busy 0 [] 0 (pos 27) (pos 7))
unfolding effective_cap remaining_budget add_spent squad.Base.Int.◌-ℤ◌ squad.Base.Int.◌+ℤ◌
all_end =
    let a = next here (check no_agent refl (omega arith)) in
    let b = next a (check (busy 1 [] 0 (pos 0) (pos 0)) refl (omega arith)) in
    let c = next b (check (busy 2 [] 0 (pos 0) (pos 0)) refl (omega arith)) in
    let d = next c (begin (pos 0) (pos 0) 2 0 [] (pos 0) refl) in
    let e = next d (begin (pos 0) (pos 0) 1 0 (pos 10 ∷ []) (pos 0) refl) in
    let f =
      next e
        (end (pos 0) (pos 0) 1 0 [] (pos 10 ∷ []) (pos 10) (pos 10) (omega arith) (omega arith)) in
    let g = next f (begin_late (pos 10) (pos 0) 0 0 (pos 10 ∷ []) refl) in
    let h = next g (end (pos 10) (pos 0) 0 1 [] [] (pos 10) (pos 10) (omega arith) (omega arith)) in
    next h (end_late (pos 20) (pos 0) 0 0 [] (pos 7) (omega arith))

steps_within_example : pos 27 ≤ℤ times 3 (pos 10) +ℤ pos 7
steps_within_example = steps_within (pos 10) 2 (busy 0 [] 0 (pos 27) (pos 7)) refl all_end
