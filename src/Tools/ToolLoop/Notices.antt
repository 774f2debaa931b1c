-- ===== src/Tools/ToolLoop/Notices.antt =====
-- tools/tools.go: the notices on the budget and on progress that the tool loop adds.
use squad.Base.{
  ℕ, String, List, [], ◌∷◌, ◌++◌, Bool, true, false, not, ◌&&◌, ◌||◌, Option, none, some, leb,
  if◌then◌else◌,
}
use squad.Base.Chars.{Chars, bytes}
use squad.Pipeline.Handoff.{decimal}
use squad.Tools.Messages.{Message, human_text}
use squad.Tools.PhaseEnforcer.{PhaseEnforcer, observe_tools}
use squad.Tools.Calibration.{BudgetUse}

unfoldable pub progress_check : Chars → Chars
progress_check remaining =
    bytes "[PROGRESS CHECK] You have used 25% of your cost budget ($"
    ++ remaining
    ++ bytes
        " remaining). Have you made any edits yet? If not, you should have enough context — start editing NOW. List what you plan to change and begin immediately. Do not read more files."

unfoldable pub budget_warning_message : ℕ → Chars → Chars
unfolding progress_check
budget_warning_message pct remaining =
    if leb pct 25 && leb 25 pct
    then progress_check remaining
    else bytes "[BUDGET WARNING] You have used "
      ++ decimal pct
      ++ bytes "% of your cost budget ($"
      ++ remaining
      ++ bytes
          " remaining). Prioritise completing your current work and producing output. Do not start reading new files — finish what you have and wrap up."

-- The thresholds of the warnings, in percent.
abbrev pub budget_warning_thresholds : List ℕ
budget_warning_thresholds = 25 ∷ 50 ∷ 75 ∷ []

-- Which warnings have been given, and the messages.
unfoldable pub warn_each :
    BudgetUse → Chars → List ℕ → List Bool → List Message → List Bool × List Message
unfolding budget_warning_message human_text
warn_each b remaining [] warned messages = (warned, messages)
warn_each b remaining (t ∷ ts) [] messages = ([], messages)
warn_each b remaining (t ∷ ts) (w ∷ ws) messages =
    let now = not w && b.used t in
    let later = warn_each b remaining ts ws (
      if now then messages ++ human_text (budget_warning_message t remaining) ∷ [] else messages) in
    ((w || now) ∷ later.0, later.1)

unfoldable pub inject_budget_warnings :
    Option BudgetUse → Chars → List Bool → List Message → List Bool × List Message
unfolding warn_each
inject_budget_warnings none remaining warned messages = (warned, messages)
inject_budget_warnings (some b) remaining warned messages =
    if b.limited
    then warn_each b remaining budget_warning_thresholds warned messages
    else (warned, messages)

unfoldable pub with_nudge : Option Chars → List Message → List Message
with_nudge none messages = messages
with_nudge (some nudge) messages = messages ++ human_text nudge ∷ []

-- `injectPhaseNudge`, unless new files were read.
unfoldable pub inject_phase_nudge :
    Bool → Option PhaseEnforcer → List String → List Message → Option PhaseEnforcer × List Message
unfolding with_nudge
inject_phase_nudge true pe names messages = (pe, messages)
inject_phase_nudge false pe names messages =
    let (next, nudge) = observe_tools pe names in (next, with_nudge nudge messages)
