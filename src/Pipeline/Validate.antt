-- ===== src/Pipeline/Validate.antt =====
-- `Validate` of pipeline/pipeline.go and the checks that it makes in turn.
use squad.Base.{
  ℕ, ◌+◌, String, List, [], ◌∷◌, Bool, true, false, not, ◌&&◌, ◌||◌, Option, none, some, Result, ok,
  err, ◌>>=◌, ◌>>◌, refuse_if,
}
use squad.Base.Text.{◌==◌}
use squad.Base.All.{contains}
use squad.Pipeline.{Pipeline, Stage, Gate, Partition, agent_list}
use squad.Pipeline.Cycle.{Walk, done, cycle, exhausted, detect_cycle}

-- One constructor for each message, with the values that it prints.
pub data ConfigError : Type 0 where
  name_required no_stages : ConfigError
  stage_unnamed : ℕ → ConfigError
  duplicate_stage no_agent both_agent_and_agents : String → ConfigError
  partition_needs_agent partition_glob_required : String → ConfigError
  partition_by bad_summarize unknown_dependency : String → String → ConfigError
  self_dependency : String → ConfigError
  cycle_detected : String → String → ConfigError
  unknown_gate_stage gate_command_required : String → ConfigError

abbrev pub Check : Type 0 → Type 0
Check = Result ConfigError

abbrev pub pass : Check Unit
pass = ok tt

abbrev pub is_empty : List String → Bool
is_empty [] = true
is_empty (x ∷ xs) = false

unfoldable pub check_partition : Stage → Option Partition → Check Unit
check_partition s none = pass
check_partition s (some p) = do
  refuse_if (s.agent == "") (partition_needs_agent s.name)
  refuse_if (not (p.by == "files")) (partition_by s.name p.by)
  refuse_if (p.glob == "") (partition_glob_required s.name)

-- The body of the loop of `validateStages` behind the tests on the name.
unfoldable pub check_stage : Stage → Check Unit
check_stage s = do
  refuse_if (is_empty (agent_list s)) (no_agent s.name)
  refuse_if (not (s.agent == "") && not (is_empty s.agents)) (both_agent_and_agents s.name)
  check_partition s s.partition
  refuse_if
      (not (
        s.summarize == ""
        || s.summarize == "auto"
        || s.summarize == "always"
        || s.summarize == "never"))
      (bad_summarize s.name s.summarize)

-- `i` counts the rounds, and `seen` is the map `stageNames`.
unfoldable pub validate_stages : ℕ → List String → List Stage → Check (List String)
validate_stages i seen [] = ok seen
validate_stages i seen (s ∷ ss) = do
  refuse_if (s.name == "") (stage_unnamed i)
  refuse_if (contains seen s.name) (duplicate_stage s.name)
  check_stage s
  validate_stages (i + 1) (s.name ∷ seen) ss

unfoldable pub check_depends_on : List String → String → List String → Check Unit
check_depends_on names stage [] = pass
check_depends_on names stage (d ∷ ds) = do
  refuse_if (not (contains names d)) (unknown_dependency stage d)
  refuse_if (d == stage) (self_dependency stage)
  check_depends_on names stage ds

unfoldable pub check_references : List String → List Stage → Check Unit
unfolding check_depends_on
check_references names [] = pass
check_references names (s ∷ ss) = do
  check_depends_on names s.name s.depends_on
  check_references names ss

-- `exhausted` does not happen: `detect_cycle` gives itself enough fuel.
unfoldable pub cycle_error : Walk → Check Unit
cycle_error (done c) = pass
cycle_error (cycle a b) = err (cycle_detected a b)
cycle_error exhausted = pass

unfoldable pub validate_dependencies : List String → List Stage → Check Unit
unfolding check_references cycle_error
validate_dependencies names ss = do check_references names ss; cycle_error (detect_cycle ss)

unfoldable pub validate_gates : List String → List Gate → Check Unit
validate_gates names [] = pass
validate_gates names (g ∷ gs) = do
  refuse_if (not (contains names g.after)) (unknown_gate_stage g.after)
  refuse_if (g.command == "") (gate_command_required g.after)
  validate_gates names gs

abbrev pub no_stage : List Stage → Bool
no_stage [] = true
no_stage (s ∷ ss) = false

unfoldable pub validate : Pipeline → Check Unit
unfolding validate_stages validate_dependencies validate_gates
validate p = do
  refuse_if (p.name == "") name_required
  refuse_if (no_stage p.stages) no_stages
  names ← validate_stages 0 [] p.stages
  validate_dependencies names p.stages
  validate_gates names p.gates
