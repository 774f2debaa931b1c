-- ===== src/Tools/Dispatch.antt =====
-- tools/tools.go, tools/signoff.go: how the calls that a model makes are carried out. `W` is what lies outside of the
-- loop: files, processes, the skills that are active, the reviewer's answers.
pub mod Denied
use squad.Base.{
  ℕ, String, List, [], ◌∷◌, ◌++◌, map, Bool, true, false, not, ◌&&◌, ◌||◌, Option, none, some,
  length, if◌then◌else◌,
}
use squad.Base.Text.{◌==◌}
use squad.Base.Chars.{Chars, bytes}
use squad.Base.Dict.{Dict, lookup}
use squad.Tools.LoopDetect.{ToolCall, FunctionCall}
use squad.Tools.Messages.{Message, Part, response, ToolResponse, tool, is_mutating_tool, is_present}
use squad.Tools.ReadCache.{ReadCache}

-- What a handler may change: the read cache, and the world.
pub record Place (W : Type 0) : Type 0 where
  pub cache : ReadCache
  pub world : W

-- What a handler is told by the context: whether reads are blocked, and the iteration.
pub record Context : Type 0 where
  pub reads_blocked : Bool
  pub iteration : ℕ

-- The output, and the error, if there is one.
pub record Output : Type 0 where
  pub output : Chars
  pub error : Option Chars

abbrev pub Handler : Type 0 → Type 0
Handler W = Context → Chars → Place W → Output × Place W

-- The rules that are asked before a handler is called: those of the active skills, of the mode of
-- the run, and of the plan that a reviewer has to approve.
pub record Policy (W : Type 0) : Type 0 where
  pub allows_tool : W → String → Bool
  pub read_only : Bool
  pub awaits_plan : W → Bool

unfoldable pub skill_denial : String → Chars
skill_denial name =
    bytes "error: tool \""
    ++ bytes name
    ++ bytes "\" is not permitted by the active skill's allowed-tools"

unfoldable pub read_only_denial : String → Chars
read_only_denial name =
    bytes "error: "
    ++ bytes name
    ++ bytes
        " is not permitted in readonly mode (this run is analysis-only and must not modify files)"

unfoldable pub plan_denial : String → Chars
plan_denial name =
    bytes "error: "
    ++ bytes name
    ++ bytes
        " is locked until a plan is approved (interactive sign-off is enabled). Call ProposePlan with your intended changes and wait for user approval before modifying files"

-- The text of the result of a handler.
unfoldable pub content_of : Chars → Option Chars → Chars
unfolding is_present
content_of output none = output
content_of output (some error) =
    if is_present output then output ++ bytes "\n\nerror: " ++ error else bytes "error: " ++ error

unfoldable pub is_serial_tool : String → Bool
is_serial_tool name =
    name == "Bash"
    || name == "BashBackground"
    || name == "Edit"
    || name == "MultiEdit"
    || name == "Write"
    || name == "Task"
    || name == "Confirm"
    || name == "ProposePlan"

unfoldable pub has_serial_tool : List ToolCall → Bool
unfolding is_serial_tool
has_serial_tool [] = false
has_serial_tool (tc ∷ tcs) =
    (elim tc.function_call [ none ↦ false | some f ↦ is_serial_tool f.name ]) || has_serial_tool tcs

unfoldable pub has_several : List ToolCall → Bool
has_several [] = false
has_several (tc ∷ []) = false
has_several (tc ∷ td ∷ tcs) = true

-- The calls may run at once: there are several, and none has to run alone.
unfoldable pub can_parallelize : List ToolCall → Bool
unfolding has_serial_tool has_several
can_parallelize tool_calls = has_several tool_calls && not (has_serial_tool tool_calls)

module _ {W : Type 0} (handlers : Dict (Handler W)) (policy : Policy W) where
  open policy use {allows_tool, read_only, awaits_plan}

  -- Why the call is not carried out.
  unfoldable pub denial : W → String → Option Chars
  denial w name =
      if not (allows_tool w name)
      then some (skill_denial name)
      else if read_only && is_mutating_tool name
      then some (read_only_denial name)
      else if awaits_plan w && is_mutating_tool name
      then some (plan_denial name)
      else none

  unfoldable pub respond_with : String → String → Chars → ToolResponse
  respond_with id name content = record { tool_call_id = id; name = name; content = content }

  unfoldable pub finish_call : String → String → Output × Place W → ToolResponse × Place W
  unfolding respond_with content_of
  finish_call id name (out, place) = (respond_with id name (content_of out.output out.error), place)

  unfoldable pub run_handler :
      Context → String → FunctionCall → Handler W → Place W → Option Chars → ToolResponse × Place W
  unfolding finish_call
  run_handler ctx id f handler place (some text') = (respond_with id f.name text', place)
  run_handler ctx id f handler place none = finish_call id f.name (handler ctx f.arguments place)

  unfoldable pub call_handler :
      Context → String → FunctionCall → Option (Handler W) → Place W → ToolResponse × Place W
  unfolding denial run_handler
  call_handler ctx id f none place =
      (respond_with id "" (bytes "unknown tool: " ++ bytes f.name), place)
  call_handler ctx id f (some handler) place =
      run_handler ctx id f handler place (denial place.world f.name)

  unfoldable pub call_function :
      Context → String → Option FunctionCall → Place W → ToolResponse × Place W
  unfolding call_handler
  call_function ctx id none place =
      (respond_with id "" (bytes "tool call missing function definition"), place)
  call_function ctx id (some f) place = call_handler ctx id f (lookup f.name handlers) place

  unfoldable pub execute_tool_call : Context → ToolCall → Place W → ToolResponse × Place W
  unfolding call_function
  execute_tool_call ctx tc place = call_function ctx tc.id tc.function_call place

  -- The calls in order. Those that run at once are taken in the order of their index: each result
  -- stands at the place of its call.
  unfoldable pub execute_each : Context → List ToolCall → Place W → List ToolResponse × Place W
  unfolding execute_tool_call
  execute_each ctx [] place = ([], place)
  execute_each ctx (tc ∷ tcs) place =
      let first = execute_tool_call ctx tc place in
      let others = execute_each ctx tcs first.1 in (first.0 ∷ others.0, others.1)

unfoldable pub responses : List ToolResponse → List Part
responses [] = []
responses (r ∷ rs) = response r ∷ responses rs

unfoldable pub one_each : List ToolResponse → List Message
one_each [] = []
one_each (r ∷ rs) = record { role = tool; parts = response r ∷ [] } ∷ one_each rs

-- One message for all results, or one for each.
unfoldable pub result_messages : Bool → List ToolResponse → List Message
unfolding responses one_each
result_messages true rs = one_each rs
result_messages false rs = record { role = tool; parts = responses rs } ∷ []

unfoldable pub execute_tool_calls :
    {W : Type 0} (handlers : Dict (Handler W)) (policy : Policy W)
    → Context
    → List Message
    → List ToolCall
    → Bool
    → Place W
    → List Message × Place W
unfolding execute_each result_messages
execute_tool_calls handlers policy ctx messages tool_calls split_results place =
    let (rs, after) = execute_each handlers policy ctx tool_calls place in
    (messages ++ result_messages split_results rs, after)
