-- ===== src/Pipeline/Runner/Run.antt =====
-- pipeline/runner.go: the gates behind a stage, the run and the report.
use squad.Base.{String, List, [], ◌∷◌, ◌++◌, Bool, true, false, Option, none, some, if◌then◌else◌}
use squad.Base.Int.{ℤ, pos}
use squad.Base.Text.{◌==◌}
use squad.Base.Chars.{trim_space}
use squad.Base.Dict.{Dict, MapOrder, insert, lookup}
use squad.Tools.Findings.{Finding}
use squad.Pipeline.{Stage, Pipeline, Gate, gates_after}
use squad.Pipeline.Order.{topological_order}
use squad.Pipeline.Runner.{StageStatus, passed, failed, reverted, is_failed, Env, State}
use squad.Pipeline.Runner.Stages.{run_tier}
use squad.Pipeline.Runner.Context.{StageResult, StageError}

pub data GateError : Type 0 where
  gate_reverted : String → GateError
  gate_stopped : String → GateError

pub data RunError : Type 0 where
  stage_failed : String → Option StageError → RunError
  gate_failed : GateError → RunError

pub record Report : Type 0 where
  pub pipeline : String
  pub version : String
  pub status : StageStatus
  pub stages : List StageResult
  pub findings : List Finding

abbrev pub set_status : StageStatus → StageResult → StageResult
set_status status sr = record sr { status = status }

-- A write through the pointer that `completed` holds.
abbrev pub mark : String → StageStatus → Dict StageResult → Dict StageResult
mark name status completed = elim (lookup name completed) [
  | none ↦ completed
  | some sr ↦ insert name (set_status status sr) completed
]

unfoldable pub gate_error : Gate → GateError
gate_error g = if g.on_failure == "revert" then gate_reverted g.after else gate_stopped g.after

unfoldable pub marked : Gate → Dict StageResult → Dict StageResult
marked g completed = if g.on_failure == "revert" then mark g.after reverted completed else completed

module _ {W : Type 0} (env : Env W) where
  unfoldable pub has_uncommitted_changes : W → Bool × W
  unfolding trim_space
  has_uncommitted_changes w =
      let diff = env.git_diff w in
      (
        elim diff.0 [
          | none ↦ true
          | some out ↦ elim (trim_space out) [ [] ↦ false | c ∷ s ↦ true ]
        ],
        diff.1,
      )

  -- The gate that failed, if any.
  unfoldable pub gates_from : List Gate → W → Option Gate × W
  gates_from [] w = (none, w)
  gates_from (g ∷ gs) w =
      let run = env.run_command g.command w in
      elim run.0.is_error [ true ↦ (some g, run.1) | false ↦ gates_from gs run.1 ]

  unfoldable pub run_gates : List Gate → W → Option Gate × W
  unfolding has_uncommitted_changes gates_from
  run_gates [] w = (none, w)
  run_gates (g ∷ gs) w =
      let changes = has_uncommitted_changes w in
      elim changes.0 [ true ↦ gates_from (g ∷ gs) changes.1 | false ↦ (none, changes.1) ]

-- The variables of `Run`; `error` ends it.
pub record Progress (W : Type 0) : Type 0 where
  pub stages : List StageResult
  pub completed : Dict StageResult
  pub error : Option RunError
  pub state : State W

module _ {W : Type 0} (env : Env W) (p : Pipeline) where
  -- What `Run` does with the outcome of the gates after a stage.
  unfoldable pub after_gates : Option Gate × W → Progress W → Progress W
  unfolding gate_error marked
  after_gates (none, w) pr = record pr { state = record pr.state { world = w } }
  after_gates (some g, w) pr = record pr {
    completed = marked g pr.completed;
    error = some (gate_failed (gate_error g));
    state = record pr.state { world = w };
  }

  -- The body of the loop over the results of a tier.
  unfoldable pub settle_result : StageResult → Progress W → Progress W
  unfolding insert gates_after run_gates after_gates
  settle_result r pr =
      let noted = record pr {
        stages = pr.stages ++ r ∷ [];
        completed = insert r.name r pr.completed;
      } in
      if is_failed r.status
      then record noted { error = some (stage_failed r.name r.error) }
      else after_gates (run_gates env (gates_after p.gates r.name) pr.state.world) noted

  -- Each result, as long as there is no error.
  unfoldable pub settle_results : List StageResult → Progress W → Progress W
  unfolding settle_result
  settle_results [] pr = pr
  settle_results (r ∷ rs) pr =
      let next = settle_result r pr in
      elim next.error [ none ↦ settle_results rs next | some e ↦ next ]

  -- Each tier, as long as there is no error.
  unfoldable pub run_tiers : List (List Stage) → Progress W → Progress W
  unfolding run_tier settle_results
  run_tiers [] pr = pr
  run_tiers (tier ∷ tiers) pr =
      let done = run_tier env p.stages tier pr.completed pr.state in
      let next = settle_results done.0 (record pr { state = done.1 }) in
      elim next.error [ none ↦ run_tiers tiers next | some e ↦ next ]

  -- A `Runner` that has not run before, and was given no store of findings.
  abbrev pub start : W → Progress W
  start w = record {
    stages = [];
    completed = [];
    error = none;
    state = record { spent = pos 0; sum_cache = []; findings = []; world = w };
  }

  unfoldable pub report_of : Progress W → Report × Option RunError
  report_of pr = (
    record {
      pipeline = p.name;
      version = p.version;
      status = elim pr.error [ none ↦ passed | some e ↦ failed ];
      stages = pr.stages;
      findings = pr.state.findings;
    },
    pr.error,
  )

  -- `Run`, with the order of the map in `TopologicalOrder`; `none` if that runs out of fuel.
  unfoldable pub run : MapOrder ℤ → W → Option (Report × Option RunError)
  unfolding topological_order run_tiers report_of
  run order w = elim (topological_order order p.stages) [
    | none ↦ none
    | some tiers ↦ some (report_of (run_tiers tiers (start w)))
  ]
