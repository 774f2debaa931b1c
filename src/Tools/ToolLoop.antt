-- ===== src/Tools/ToolLoop.antt =====
-- tools/tools.go: the loop between a model and its tools. What a call of the model meets, retries included, is a
-- parameter: see `Tools.Retry`. `W` is the world outside of the loop; the metrics are part of it.
pub mod Notices
pub mod Final
pub mod Iterate
pub mod Keeps
pub mod Paired
pub mod Worlds
pub mod Calls
pub mod Stops
pub mod Deadlines
mod Tests
use squad.Base.{
  ℕ, zero, suc, ◌+◌, String, List, [], ◌∷◌, ◌++◌, Bool, true, false, not, ◌&&◌, ◌||◌, Option, none,
  some, Result, ok, err, leb, ltb, length, if◌then◌else◌,
}
use squad.Base.Text.{◌==◌}
use squad.Base.Int.{ℤ, pos, negsuc}
use squad.Base.Chars.{Chars, bytes, same_text}
use squad.Base.Dict.{Dict, lookup}
use squad.Pipeline.Handoff.{decimal}
use squad.Tools.LoopDetect.{ToolCall, FunctionCall, LoopDetector, record_step, stuck}
use squad.Tools.Messages.{
  Message, is_mutating_tool, is_present, append_tool_call_message, extract_tool_results, result_of,
  human_text, extract_tool_names, is_edit_call, is_failed_edit,
}
use squad.Tools.EditEnforcer
use squad.Tools.EditEnforcer.{
  EditEnforcer, GraceState, new_edit_enforcer, no_grace, check_edit_deadline, handle_edit_deadline,
  try_reenable_reads, check_edit_failure,
}
use squad.Tools.PhaseEnforcer
use squad.Tools.PhaseEnforcer.{PhaseEnforcer, new_phase_enforcer, observe_tools}
use squad.Tools.ReadCache.{ReadCache, new_read_cache, reset_streak, size_of}
use squad.Tools.Compaction.{compact_messages}
use squad.Tools.Calibration.{TokenCalibration, no_calibration, record_sample, BudgetUse}
use squad.Tools.Rolling.{rolling_compact}
use squad.Tools.Dispatch.{Handler, Policy, Context, Place, execute_tool_calls}

abbrev pub max_same_tool_repeat : ℕ
max_same_tool_repeat = 10

abbrev pub max_mutating_tool_repeat : ℕ
max_mutating_tool_repeat = 50

abbrev pub max_read_tool_repeat : ℕ
max_read_tool_repeat = 5

-- The signature is that of the only call: its name and its arguments, with a colon between.
pub record RepeatTracker : Type 0 where
  pub last_signature : Chars
  pub last_name : String
  pub count : ℕ

abbrev pub no_repeats : RepeatTracker
no_repeats = record { last_signature = []; last_name = ""; count = 0 }

unfoldable pub function_signature : Option FunctionCall → String × Chars
function_signature none = ("", [])
function_signature (some f) = (f.name, bytes f.name ++ b':' ∷ f.arguments)

unfoldable pub batch_signature : List ToolCall → String × Chars
unfolding function_signature
batch_signature [] = ("", [])
batch_signature (tc ∷ []) = function_signature tc.function_call
batch_signature (tc ∷ td ∷ tcs) = ("", [])

unfoldable pub update_repeat : List ToolCall → RepeatTracker → RepeatTracker
unfolding batch_signature is_present
update_repeat calls t =
    let (name, signature) = batch_signature calls in
    if is_present signature && same_text signature t.last_signature
    then record t { count = t.count + 1 }
    else record { count = 1; last_signature = signature; last_name = name }

unfoldable pub is_high_repeat_tool : String → Bool
is_high_repeat_tool name = name == "Read" || name == "Glob" || name == "Grep"

unfoldable pub repeat_limit : String → ℕ
unfolding is_high_repeat_tool
repeat_limit name =
    if is_mutating_tool name
    then max_mutating_tool_repeat
    else if is_high_repeat_tool name
    then max_read_tool_repeat
    else max_same_tool_repeat

unfoldable pub exceeded : RepeatTracker → Bool
unfolding repeat_limit
exceeded t = leb (repeat_limit t.last_name) t.count

-- A value of the map `GenerationInfo`: a number, as `toInt64` reads it, or anything else.
pub data InfoValue : Type 0 where
  number : ℤ → InfoValue
  other_value : InfoValue

-- `llms.ContentChoice`
pub record Choice : Type 0 where
  pub content : Chars
  pub tool_calls : List ToolCall
  pub generation_info : Option (Dict InfoValue)

unfoldable pub to_tokens : Option InfoValue → ℕ
to_tokens none = 0
to_tokens (some other_value) = 0
to_tokens (some (number (pos n))) = n
to_tokens (some (number (negsuc n))) = 0

-- The first of the keys that has a positive number.
unfoldable pub extract_token_value : Dict InfoValue → List String → ℕ
unfolding to_tokens
extract_token_value gi [] = 0
extract_token_value gi (key ∷ keys) =
    let later = extract_token_value gi keys in
    if ltb 0 (to_tokens (lookup key gi)) then to_tokens (lookup key gi) else later

abbrev pub input_keys : List String
input_keys = "PromptTokens" ∷ "prompt_tokens" ∷ "InputTokens" ∷ "input_tokens" ∷ []

abbrev pub output_keys : List String
output_keys = "CompletionTokens" ∷ "completion_tokens" ∷ "OutputTokens" ∷ "output_tokens" ∷ []

-- What the loop asks of `metrics.Metrics`; without metrics the counters do nothing.
pub record Meter (W : Type 0) : Type 0 where
  pub is_set : Bool
  pub increment_iterations : W → W
  pub add_tokens : ℕ → ℕ → W → W
  pub budget_exceeded : W → Bool
  -- `none` without a positive limit.
  pub budget_use : W → Option BudgetUse
  pub remaining : W → Chars

-- What the loop calls: the model, with the index of the iteration (`none` for the last call) and the messages; the tools
-- and their rules; the metrics. `digest`, `ratio` and `visit` are SHA-256, the arithmetic in float64
-- and the order of a map.
pub record Env (W : Type 0) : Type 0 where
  pub generate : Option ℕ → List Message → W → Result Chars (List Choice) × W
  pub handlers : Dict (Handler W)
  pub policy : Policy W
  pub meter : Meter W
  pub digest : List Chars → String
  pub ratio : ℕ → ℕ → ℕ → ℕ
  pub visit : List (Chars × ℕ) → List (Chars × ℕ)
  pub split_tool_results : Bool

-- The variables of the loop. `cache` and `world` are what the handlers may change as well.
pub record Loop (W : Type 0) : Type 0 where
  pub last_content : Chars
  pub messages : List Message
  pub repeat : RepeatTracker
  pub detector : LoopDetector
  pub edit_enforcer : Option EditEnforcer
  pub phase_enforcer : Option PhaseEnforcer
  pub grace : GraceState
  pub deadline_marked : Bool
  pub budget_warned : List Bool
  pub calibration : TokenCalibration
  pub place : Place W

-- How the loop ends.
pub data Ending : Type 0 where
  final_response : Chars → Ending
  call_failed : Chars → Ending
  empty_response : Ending
  loop_detected : Ending
  edit_deadline_reached : Ending
  budget_exceeded : Ending
  iteration_limit_reached : Ending

-- An iteration ends the loop, or goes on.
pub data Turn (W : Type 0) : Type 0 where
  stop : Ending → Loop W → Turn W
  go : Loop W → Turn W

-- `shouldBlockReadTools`
unfoldable pub should_block_read_tools :
    GraceState → Option EditEnforcer → Option PhaseEnforcer → Bool
should_block_read_tools gs e pe =
    if gs.edit_failed_in_grace
    then false
    else EditEnforcer.should_block_reads e || PhaseEnforcer.should_block_reads pe

-- The loop of `resetCacheStreakOnEdit`; here a missing result reads as the empty text, so it counts
-- as a success.
unfoldable pub resets_streak : List ToolCall → Dict Chars → Bool
resets_streak [] results = false
resets_streak (tc ∷ tcs) results =
    (is_edit_call tc && not (is_failed_edit (result_of results tc.id))) || resets_streak tcs results

unfoldable pub reset_cache_streak_on_edit : List ToolCall → Dict Chars → ReadCache → ReadCache
unfolding resets_streak
reset_cache_streak_on_edit calls results rc =
    if resets_streak calls results then reset_streak rc else rc
