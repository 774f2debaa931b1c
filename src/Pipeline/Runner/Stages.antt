-- ===== src/Pipeline/Runner/Stages.antt =====
-- pipeline/runner.go: a stage, its agents and partitions, and the stages of a tier.
use squad.Base.{
  Result, ok, err, ℕ, suc, String, List, [], ◌∷◌, ◌++◌, Option, none, some, length, if◌then◌else◌,
}
use squad.Base.Text.{codes}
use squad.Base.Chars.{Chars}
use squad.Base.Dict.{Dict}
use squad.Pipeline.{Stage, agent_list}
use squad.Pipeline.Partitions.{RelPath}
use squad.Pipeline.Handoff.{decimal}
use squad.Pipeline.Runner.{
  StageStatus, passed, failed, skipped, is_failed, AgentResult, Env, State, run_agent, join_prompt,
}
use squad.Pipeline.Runner.PreGates.{PreGateError, run_pre_gates}
use squad.Pipeline.Runner.Context.{
  StageResult, StageError, pre_gate_failed, partition_failed, no_files, agent_failed,
  build_prompt_context,
}

-- A path, from the working directory.
unfoldable pub slash_path : RelPath → Chars
slash_path [] = []
slash_path (c ∷ []) = codes c
slash_path (c ∷ d ∷ cs) = codes c ++ codes "/" ++ slash_path (d ∷ cs)

abbrev pub file_lines : List RelPath → Chars
unfolding slash_path
file_lines [] = []
file_lines (f ∷ fs) = codes "- " ++ slash_path f ++ codes "\n" ++ file_lines fs

unfoldable pub format_partition_prompt : List RelPath → ℕ → ℕ → Chars
unfolding slash_path decimal
format_partition_prompt files part_idx total_parts =
    codes "## Partition Assignment ("
    ++ decimal part_idx
    ++ codes " of "
    ++ decimal total_parts
    ++ codes ")\n\nYou are reviewing a subset of the codebase. Focus ONLY on these files:\n\n"
    ++ file_lines files
    ++ codes
        "\nDo NOT read or analyze files outside this list.\nOther partitions are handling the remaining files in parallel.\n"

-- The first agent that failed.
unfoldable pub first_failed : List AgentResult → Option Chars
first_failed [] = none
first_failed (ar ∷ ars) = if is_failed ar.status then some ar.agent else first_failed ars

unfoldable pub conclude : String → List AgentResult → Option Chars → StageResult
conclude name agents none = record { name = name; status = passed; agents = agents; error = none }
conclude name agents (some a) = record {
  name = name;
  status = failed;
  agents = agents;
  error = some (agent_failed a);
}

-- A stage that ends before an agent runs.
unfoldable pub ended : String → StageStatus → StageError → StageResult
ended name status why = record { name = name; status = status; agents = []; error = some why }

module _ {W : Type 0} (env : Env W) where
  unfoldable pub run_agents : List String → Stage → Chars → State W → List AgentResult × State W
  unfolding run_agent
  run_agents [] stage context st = ([], st)
  run_agents (a ∷ agents) stage context st =
      let first = run_agent env a stage context st in
      let rest = run_agents agents stage context first.1 in (first.0 ∷ rest.0, rest.1)

  -- `idx` counts from 0; the agents' names carry the index.
  unfoldable pub run_partitions :
      ℕ → ℕ → List (List RelPath) → Stage → Chars → State W → List AgentResult × State W
  unfolding run_agent format_partition_prompt decimal
  run_partitions idx total [] stage context st = ([], st)
  run_partitions idx total (files ∷ parts) stage context st =
      let full = format_partition_prompt files (suc idx) total ++ codes "\n\n" ++ context in
      let first = run_agent env stage.agent stage full st in
      let tag =
        codes stage.agent
        ++ codes "["
        ++ decimal (suc idx)
        ++ codes "/"
        ++ decimal total
        ++ codes "]" in
      let rest = run_partitions (suc idx) total parts stage context first.1 in
      (record first.0 { agent = tag } ∷ rest.0, rest.1)

  abbrev pub finish_stage : String → List AgentResult × State W → StageResult × State W
  finish_stage name done = (conclude name done.0 (first_failed done.0), done.1)

  -- A stage with its partition, if any, expanded.
  unfoldable pub run_groups :
      Stage
      → Chars
      → Option (Result StageError (List (List RelPath)))
      → State W
      → StageResult × State W
  unfolding run_agents run_partitions ended agent_list
  run_groups stage context none st =
      finish_stage stage.name (run_agents (agent_list stage) stage context st)
  run_groups stage context (some (err e)) st = (ended stage.name failed e, st)
  run_groups stage context (some (ok [])) st = (ended stage.name skipped no_files, st)
  run_groups stage context (some (ok (g ∷ gs))) st =
      finish_stage stage.name (run_partitions 0 (length (g ∷ gs)) (g ∷ gs) stage context st)

  abbrev pub groups_of : Stage → W → Option (Result StageError (List (List RelPath)))
  groups_of stage w = elim stage.partition [
    | none ↦ none
    | some p ↦ elim (env.expand p w) [ ok gs ↦ some (ok gs) | err e ↦ some (err partition_failed) ]
  ]

  -- `runStage` from the outcome of the pre-gates on.
  unfoldable pub after_pre_gates :
      List Stage
      → Stage
      → Dict StageResult
      → State W
      → Result PreGateError Chars × W
      → StageResult × State W
  unfolding build_prompt_context run_groups ended
  after_pre_gates all stage completed st (err e, w) =
      (ended stage.name skipped pre_gate_failed, record st { world = w })
  after_pre_gates all stage completed st (ok output, w) =
      let context = build_prompt_context env all stage completed (record st { world = w }) in
      run_groups stage (join_prompt output (codes "\n") context.0) (groups_of stage context.1.world)
        context.1

  unfoldable pub run_stage : List Stage → Stage → Dict StageResult → State W → StageResult × State W
  unfolding run_pre_gates after_pre_gates
  run_stage all stage completed st =
      after_pre_gates all stage completed st (run_pre_gates env stage st.world)

  unfoldable pub run_tier :
      List Stage → List Stage → Dict StageResult → State W → List StageResult × State W
  unfolding run_stage
  run_tier all [] completed st = ([], st)
  run_tier all (s ∷ ss) completed st =
      let first = run_stage all s completed st in
      let rest = run_tier all ss completed first.1 in (first.0 ∷ rest.0, rest.1)
