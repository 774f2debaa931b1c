-- ===== src/Pipeline/Runner.antt =====
-- pipeline/runner.go: running a pipeline. The agents, the shell, git and the model that summarises
-- are callbacks (`Env`), which change a world `W` of their own. The goroutines of a tier, of a stage
-- and of its partitions run here one after the other, in the order of their index, each to its end.
pub mod PreGates
pub mod Context
pub mod Stages
pub mod Run
pub mod Outcome
pub mod Accounts
pub mod Reports
pub mod Spending
pub mod Interleaved
pub mod Budget
pub mod Gates
pub mod Handoffs
mod Tests
use squad.Base.{
  Result, ℕ, String, List, [], ◌∷◌, ◌++◌, Bool, true, false, ◌&&◌, ◌||◌, not, Option, none, some,
  if◌then◌else◌,
}
use squad.Base.Text.{codes, ◌==◌}
use squad.Base.Int.{ℤ, pos, ◌+ℤ◌, ◌-ℤ◌, ltb_ℤ}
use squad.Base.Chars.{Chars}
use squad.Base.Dict.{Dict, insert}
use squad.Tools.Findings.{Finding}
use squad.Pipeline.{Cost, Stage, Partition}
use squad.Pipeline.Partitions.{RelPath, PartitionError}
use squad.Pipeline.Handoff.{SummarizeFunc, SummaryCache}

pub data StageStatus : Type 0 where
  passed failed reverted skipped : StageStatus

abbrev pub is_failed : StageStatus → Bool
is_failed passed = false
is_failed failed = true
is_failed reverted = false
is_failed skipped = false

-- The agent's name may carry an index, `name[1/2]`. Durations and metrics are left out.
pub record AgentResult : Type 0 where
  pub agent : Chars
  pub status : StageStatus
  pub output : Chars

-- A variable's text; `cost c` is the text that `%.4f` makes of an amount.
pub data VarValue : Type 0 where
  text : String → VarValue
  cost : Cost → VarValue

-- What `RunAgent` returns: the metrics' total cost if there are metrics, whether there was an error,
-- and what the agent reported to the store of findings meanwhile.
pub record AgentReply : Type 0 where
  pub output : Chars
  pub metrics : Option Cost
  pub is_error : Bool
  pub reported : List Finding

-- What a command printed, and whether it failed.
pub record CommandResult : Type 0 where
  pub printed : Chars
  pub is_error : Bool

-- The callbacks of the `Runner`, and what it calls outside the repository. `git_diff` is the output of
-- `git diff --stat HEAD`, `none` if that fails; `marshal` is the JSON of the findings.
pub record Env (W : Type 0) : Type 0 where
  pub run_agent : String → Chars → String → Dict VarValue → W → AgentReply × W
  pub run_command : String → W → CommandResult × W
  pub git_diff : W → Option Chars × W
  pub summarize : SummarizeFunc W
  pub expand : Partition → W → Result PartitionError (List (List RelPath))
  pub marshal : List Finding → Option Chars
  pub prompt : Chars
  pub max_cost : Cost

-- What the `Runner` keeps in a run, and the world.
pub record State (W : Type 0) : Type 0 where
  pub spent : Cost
  pub sum_cache : SummaryCache
  pub findings : List Finding
  pub world : W

abbrev pub pipeline_max_cost_var : String
pipeline_max_cost_var = "__pipeline_max_cost"

abbrev pub pipeline_stage_name_var : String
pipeline_stage_name_var = "__pipeline_stage_name"

-- `max_cost`, then what is spent. 0 stands for `unlimited` as for `nothing left`.
unfoldable pub remaining_budget : Cost → Cost → Cost
remaining_budget max_cost spent =
    if ltb_ℤ (pos 0) max_cost
    then (let remaining = max_cost -ℤ spent in if ltb_ℤ remaining (pos 0) then pos 0 else remaining)
    else pos 0

unfoldable pub add_spent : Cost → Cost → Cost
add_spent amount spent = spent +ℤ amount

-- The cap that an agent is told: the pipeline's limit, what is spent, the stage's limit.
unfoldable pub effective_cap : Cost → Cost → Cost → Cost
effective_cap max_cost spent stage_max =
    let remaining = remaining_budget max_cost spent in
    if ltb_ℤ (pos 0) stage_max && (not (ltb_ℤ (pos 0) remaining) || ltb_ℤ stage_max remaining)
    then stage_max
    else remaining

abbrev pub is_exhausted : Cost → Cost → Bool
is_exhausted max_cost spent =
    ltb_ℤ (pos 0) max_cost && not (ltb_ℤ (pos 0) (remaining_budget max_cost spent))

-- The stage's own variables, in a map.
abbrev pub stage_vars : List (String × String) → Dict VarValue
stage_vars [] = []
stage_vars ((k, v) ∷ vars) = (k, text v) ∷ stage_vars vars

unfoldable pub cap_var : Cost → Dict VarValue → Dict VarValue
cap_var cap vars = if ltb_ℤ (pos 0) cap then insert pipeline_max_cost_var (cost cap) vars else vars

-- The variables that an agent gets.
unfoldable pub agent_vars : Cost → Cost → Stage → Dict VarValue
agent_vars max_cost spent stage =
    let named = insert pipeline_stage_name_var (text stage.name) (stage_vars stage.vars) in
    if ltb_ℤ (pos 0) max_cost || ltb_ℤ (pos 0) stage.max_cost
    then cap_var (effective_cap max_cost spent stage.max_cost) named
    else named

abbrev pub charge : Option Cost → Cost → Cost
charge none spent = spent
charge (some c) spent = add_spent c spent

-- `""` adds nothing to a prompt, and no blank line.
abbrev pub join_prompt : Chars → Chars → Chars → Chars
join_prompt [] between prompt = prompt
join_prompt (c ∷ context) between prompt = (c ∷ context) ++ between ++ prompt

module _ {W : Type 0} (env : Env W) where
  unfoldable pub run_agent : String → Stage → Chars → State W → AgentResult × State W
  run_agent agent_name stage context st =
      let refused : AgentResult = record {
        agent = codes agent_name;
        status = failed;
        output = codes "pipeline cost budget exceeded";
      } in
      let reply =
        env.run_agent agent_name (join_prompt context (codes "\n\n") env.prompt) stage.mode
          (agent_vars env.max_cost st.spent stage) st.world in
      let result : AgentResult = record {
        agent = codes agent_name;
        status = if reply.0.is_error then failed else passed;
        output = reply.0.output;
      } in
      let after : State W = record st {
        spent = charge reply.0.metrics st.spent;
        findings = st.findings ++ reply.0.reported;
        world = reply.1;
      } in
      if is_exhausted env.max_cost st.spent then (refused, st) else (result, after)
