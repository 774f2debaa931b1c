-- ===== src/Tools/PhaseEnforcer.antt =====
-- tools/efficiency.go: the nudges to an agent that only reads. `nil` is `none`.
pub mod Nudges
use squad.Base.{
  ℕ, zero, suc, ◌+◌, ◌-◌, ◌%◌, String, List, [], ◌∷◌, ◌++◌, Bool, true, false, ◌&&◌, ◌||◌, Option,
  none, some, leb, ◌==◌, if◌then◌else◌,
}
use squad.Base.Int.{ℤ, pos, negsuc}
use squad.Base.Chars.{Chars, bytes}
use squad.Base.Dict.{Dict}
use squad.Pipeline.Handoff.{decimal}
use squad.Tools.LoopDetect.{ToolCall}
use squad.Tools.Messages.{is_mutating_tool}
use squad.Tools.EditEnforcer.{confirms}

pub record PhaseEnforcer : Type 0 where
  pub nudge_after : ℕ
  pub read_only_iters : ℕ
  pub nudge_count : ℕ
  pub edit_seen : Bool

unfoldable pub new_phase_enforcer : ℤ → Option PhaseEnforcer
new_phase_enforcer (negsuc n) = none
new_phase_enforcer (pos zero) = none
new_phase_enforcer (pos (suc n)) =
    some (record { nudge_after = suc n; read_only_iters = 0; nudge_count = 0; edit_seen = false })

unfoldable pub nudges_sent : Option PhaseEnforcer → ℕ
nudges_sent none = 0
nudges_sent (some pe) = pe.nudge_count

unfoldable pub reset_read_progress : Option PhaseEnforcer → Option PhaseEnforcer
reset_read_progress none = none
reset_read_progress (some pe) =
    if pe.edit_seen then some pe else some (record pe { read_only_iters = 0; nudge_count = 0 })

unfoldable pub should_block_reads : Option PhaseEnforcer → Bool
should_block_reads none = false
should_block_reads (some pe) = if pe.edit_seen then false else leb 2 pe.nudge_count

unfoldable pub nudge_message : ℕ → ℕ → Chars
nudge_message nudge_count iters =
    if nudge_count == 1
    then bytes "[PROGRESS CHECK] You have spent "
      ++ decimal iters
      ++ bytes
          " iterations reading/analyzing without making any edits. You should have enough context by now. Start making changes NOW. Do not read more files unless absolutely necessary for your next edit. Batch multiple Edit calls in a single response."
    else if nudge_count == 2
    then bytes "[URGENT — STOP READING] You have spent "
      ++ decimal iters
      ++ bytes
          " iterations without a single Edit call. Your Read calls are returning cached results — you already have the file contents. Call Edit or Write in your NEXT response. If you call Read again instead of Edit, you are wasting your iteration budget."
    else bytes "[FINAL WARNING] "
      ++ decimal iters
      ++ bytes
          " iterations with ZERO edits. You are in a read loop. STOP calling Read/Glob/Grep. Call Edit NOW with the file contents you already have. Your next tool call MUST be Edit or Write — anything else is budget waste."

unfoldable pub some_edit_tool : List String → Bool
some_edit_tool [] = false
some_edit_tool (name ∷ names) = is_mutating_tool name || some_edit_tool names

-- One more read-only iteration; `nudge_after` is positive in what the constructor returns.
unfoldable pub observe_read_only : PhaseEnforcer → PhaseEnforcer × Option Chars
unfolding nudge_message
observe_read_only pe =
    let iters = pe.read_only_iters + 1 in
    if leb pe.nudge_after iters && (iters - pe.nudge_after) % pe.nudge_after == 0
    then (
      record pe { read_only_iters = iters; nudge_count = pe.nudge_count + 1 },
      some (nudge_message (pe.nudge_count + 1) iters),
    )
    else (record pe { read_only_iters = iters }, none)

-- The enforcer afterwards, and the nudge, if there is one.
unfoldable pub observe_tools :
    Option PhaseEnforcer → List String → Option PhaseEnforcer × Option Chars
unfolding some_edit_tool observe_read_only
observe_tools none names = (none, none)
observe_tools (some pe) names =
    if pe.edit_seen || some_edit_tool names
    then (some pe, none)
    else (let (next, nudge) = observe_read_only pe in (some next, nudge))

unfoldable pub confirm_edit :
    List ToolCall → Dict Chars → Option PhaseEnforcer → Option PhaseEnforcer
confirm_edit tool_calls results none = none
confirm_edit tool_calls results (some pe) =
    if pe.edit_seen
    then some pe
    else if confirms tool_calls results
    then some (record pe { edit_seen = true })
    else some pe
