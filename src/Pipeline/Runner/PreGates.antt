-- ===== src/Pipeline/Runner/PreGates.antt =====
-- pipeline/runner.go: the commands that run before the agents of a stage.
use squad.Base.{
  ℕ, Result, ok, err, String, List, [], ◌∷◌, ◌++◌, Bool, true, false, ltb, length, take,
  if◌then◌else◌,
}
use squad.Base.Text.{codes, ◌==◌}
use squad.Base.Chars.{Chars}
use squad.Pipeline.{PreGate, Stage}
use squad.Pipeline.Handoff.{truncation_mark}
use squad.Pipeline.Runner.{Env}

-- The labels of the failed commands, by what `on_error` says.
pub data PreGateError : Type 0 where
  skipping_stage : String → PreGateError
  stopping_pipeline : String → PreGateError

abbrev max_gate_output : ℕ
max_gate_output = 8192

abbrev cap_output : Chars → Chars
cap_output output =
    if ltb max_gate_output (length output)
    then take max_gate_output output ++ truncation_mark
    else output

-- What a command adds to the prompt.
unfoldable pub gate_section : String → Chars → Chars
gate_section label [] =
    codes "### " ++ codes label ++ codes "\n\n(no output — all checks passed)\n\n"
gate_section label (c ∷ output) =
    codes "### " ++ codes label ++ codes "\n\n```\n" ++ cap_output (c ∷ output) ++ codes "```\n\n"

unfoldable pub label_of : PreGate → String
label_of pg = if pg.label == "" then pg.command else pg.label

-- What a command's failure means; `continue`, and all that is neither `skip` nor `stop`, goes on.
unfoldable pub on_failure : PreGate → Bool → Result PreGateError (Unit {0})
unfolding label_of
on_failure pg false = ok tt
on_failure pg true =
    if pg.on_error == "skip"
    then err (skipping_stage (label_of pg))
    else if pg.on_error == "stop"
    then err (stopping_pipeline (label_of pg))
    else ok tt

module _ {W : Type 0} (env : Env W) where
  unfoldable pub pre_gates_from : List PreGate → Chars → W → Result PreGateError Chars × W
  unfolding on_failure gate_section label_of
  pre_gates_from [] sb w = (ok sb, w)
  pre_gates_from (pg ∷ pgs) sb w =
      let run = env.run_command pg.command w in
      elim (on_failure pg run.0.is_error) [
        | err e ↦ (err e, run.1)
        | ok u ↦ pre_gates_from pgs (sb ++ gate_section (label_of pg) run.0.printed) run.1
      ]

  unfoldable pub run_pre_gates : Stage → W → Result PreGateError Chars × W
  unfolding pre_gates_from
  run_pre_gates stage w = elim stage.pre_gates [
    | [] ↦ (ok [], w)
    | pg ∷ pgs ↦ pre_gates_from (pg ∷ pgs) (codes "## Static Analysis Output\n\n") w
  ]
