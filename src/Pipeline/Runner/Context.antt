-- ===== src/Pipeline/Runner/Context.antt =====
-- pipeline/runner.go: what the agents of a stage are told of the stages before it.
use squad.Base.{String, List, [], ◌∷◌, ◌++◌, Option, none, some, length, if◌then◌else◌}
use squad.Base.Text.{codes}
use squad.Base.Chars.{Chars}
use squad.Base.Dict.{Dict, lookup}
use squad.Tools.Findings.{Finding}
use squad.Pipeline.{Stage}
use squad.Pipeline.Order.{stage_map, zero_stage}
use squad.Pipeline.Handoff.{
  should_summarize, summarize_output, truncate_fallback, cache_get, cache_set,
}
use squad.Pipeline.Runner.{StageStatus, passed, failed, reverted, skipped, AgentResult, Env, State}

-- Why a stage did not pass.
pub data StageError : Type 0 where
  pre_gate_failed : StageError
  partition_failed : StageError
  no_files : StageError
  agent_failed : Chars → StageError

-- Durations are left out.
pub record StageResult : Type 0 where
  pub name : String
  pub status : StageStatus
  pub agents : List AgentResult
  pub error : Option StageError

abbrev status_text : StageStatus → Chars
status_text passed = codes "passed"
status_text failed = codes "failed"
status_text reverted = codes "reverted"
status_text skipped = codes "skipped"

abbrev pub findings_section : Option Chars → Chars
findings_section none = []
findings_section (some []) = []
findings_section (some (c ∷ json)) =
    codes
      "### Structured Findings from Prior Stages\n\nThe following findings were reported by prior agents. Focus on these\nrather than re-reading files to discover the same issues.\n\n```json\n"
    ++ (c ∷ json)
    ++ codes "\n```\n\n"

module _ {W : Type 0} (env : Env W) where
  -- The text of an agent's output that the cache does not have.
  unfoldable pub fresh_summary : Stage → Chars → W → Chars × W
  unfolding should_summarize summarize_output truncate_fallback
  fresh_summary dep_stage output w =
      if should_summarize dep_stage (length output)
      then summarize_output env.summarize dep_stage output w
      else (truncate_fallback output, w)

  unfoldable pub summarize_agent_output : Stage → String → AgentResult → State W → Chars × State W
  unfolding cache_get cache_set fresh_summary
  summarize_agent_output dep_stage stage_name ar st =
      let key = codes stage_name ++ codes "/" ++ ar.agent in
      let fresh = fresh_summary dep_stage ar.output st.world in
      elim (cache_get key st.sum_cache) [
        | some cached ↦ (cached, st)
        | none ↦
            (fresh.0, record st { sum_cache = cache_set key fresh.0 st.sum_cache; world = fresh.1 })
      ]

  -- The loop over the agents of a result.
  unfoldable pub agents_context :
      Stage → String → List AgentResult → Chars → State W → Chars × State W
  unfolding summarize_agent_output
  agents_context dep_stage name [] sb st = (sb, st)
  agents_context dep_stage name (ar ∷ ars) sb st =
      let head =
        sb
        ++ codes "**Agent "
        ++ ar.agent
        ++ codes "** (status: "
        ++ status_text ar.status
        ++ codes "):\n" in
      let summary = summarize_agent_output dep_stage name ar st in
      agents_context dep_stage name ars (head ++ summary.0 ++ codes "\n\n") summary.1

  -- The loop over what the stage depends on.
  unfoldable pub deps_context :
      (String → Stage) → Dict StageResult → List String → Chars → State W → Chars × State W
  unfolding lookup agents_context
  deps_context stages completed [] sb st = (sb, st)
  deps_context stages completed (dep ∷ deps) sb st = elim (lookup dep completed) [
    | none ↦ deps_context stages completed deps sb st
    | some sr ↦
        let head =
          sb
          ++ codes "### Stage: "
          ++ codes sr.name
          ++ codes " (status: "
          ++ status_text sr.status
          ++ codes ")\n\n" in
        let done = agents_context (stages dep) sr.name sr.agents head st in
        deps_context stages completed deps done.0 done.1
  ]

  -- What the context begins with: the findings so far, if `marshal` has a text for them.
  unfoldable pub context_head : List Finding → Chars
  context_head findings =
      let json : Option Chars = elim findings [ [] ↦ none | f ∷ fs ↦ env.marshal (f ∷ fs) ] in
      codes "## Prior Stage Results\n\n" ++ findings_section json

  unfoldable pub build_prompt_context :
      List Stage → Stage → Dict StageResult → State W → Chars × State W
  unfolding stage_map deps_context
  build_prompt_context all stage completed st = elim stage.depends_on [
    | [] ↦ ([], st)
    | d ∷ ds ↦
        deps_context (stage_map all (λ _. zero_stage)) completed (d ∷ ds) (context_head st.findings)
          st
  ]
