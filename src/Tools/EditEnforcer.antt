-- ===== src/Tools/EditEnforcer.antt =====
-- tools/tools.go: the deadline for the first edit, and the grace period after it. `nil` is `none`.
pub mod Deadline
use squad.Base.{
  ℕ, zero, suc, ◌+◌, ◌-◌, ◌/◌, String, List, [], ◌∷◌, ◌++◌, Bool, true, false, not, ◌&&◌, ◌||◌,
  Option, none, some, leb, ltb, if◌then◌else◌,
}
use squad.Base.{◌==◌ as nat_eq}
use squad.Base.Text.{◌==◌}
use squad.Base.Int.{ℤ, pos, negsuc}
use squad.Base.Chars.{Chars, bytes}
use squad.Base.Dict.{Dict, lookup}
use squad.Pipeline.Handoff.{decimal}
use squad.Tools.LoopDetect.{ToolCall}
use squad.Tools.Messages.{Message, human_text, is_edit_call, is_failed_edit, extract_tool_names}

pub record EditEnforcer : Type 0 where
  pub deadline : ℕ
  pub edit_seen : Bool
  pub read_only_iters : ℕ

unfoldable pub new_edit_enforcer : ℤ → Option EditEnforcer
new_edit_enforcer (negsuc n) = none
new_edit_enforcer (pos zero) = none
new_edit_enforcer (pos (suc n)) =
    some (record { deadline = suc n; edit_seen = false; read_only_iters = 0 })

unfoldable pub pre_edit : Option EditEnforcer → Bool
pre_edit none = true
pre_edit (some e) = not e.edit_seen

unfoldable pub should_block_reads : Option EditEnforcer → Bool
should_block_reads none = false
should_block_reads (some e) =
    if e.edit_seen
    then false
    else leb (if ltb (e.deadline / 2) 2 then 2 else e.deadline / 2) e.read_only_iters

unfoldable pub names_an_edit : List String → Bool
names_an_edit [] = false
names_an_edit (name ∷ names) =
    name == "Edit" || name == "MultiEdit" || name == "Write" || names_an_edit names

-- The enforcer afterwards, and whether the deadline is reached.
unfoldable pub check_names : Option EditEnforcer → List String → Option EditEnforcer × Bool
unfolding names_an_edit
check_names none names = (none, false)
check_names (some e) names = if e.edit_seen || names_an_edit names then (some e, false) else (
  some (record e { read_only_iters = e.read_only_iters + 1 }),
  leb e.deadline (e.read_only_iters + 1),
)

unfoldable pub reset_read_progress : Option EditEnforcer → Option EditEnforcer
reset_read_progress none = none
reset_read_progress (some e) =
    if e.edit_seen then some e else some (record e { read_only_iters = 0 })

-- The test on the result of a call of an edit tool; a call without a result is passed over.
unfoldable pub is_success : Option Chars → Bool
is_success none = false
is_success (some result) = not (is_failed_edit result)

-- The loop of both `ConfirmEdit`: some call of an edit tool has a result that is no failure.
unfoldable pub confirms : List ToolCall → Dict Chars → Bool
unfolding is_success
confirms [] results = false
confirms (tc ∷ tcs) results =
    (is_edit_call tc && is_success (lookup tc.id results)) || confirms tcs results

unfoldable pub confirm_edit : List ToolCall → Dict Chars → Option EditEnforcer → Option EditEnforcer
unfolding confirms
confirm_edit tool_calls results none = none
confirm_edit tool_calls results (some e) =
    if e.edit_seen
    then some e
    else if confirms tool_calls results
    then some (record e { edit_seen = true })
    else some e

-- The enforcer, whether its deadline is reached, and the flag of `MarkEditDeadlineReached`.
unfoldable pub check_edit_deadline :
    Option EditEnforcer → List ToolCall → Bool → Option EditEnforcer × Bool × Bool
unfolding check_names
check_edit_deadline enforcer tool_calls marked =
    let (next, reached) = check_names enforcer (extract_tool_names tool_calls) in
    (next, reached, reached || marked)

abbrev pub edit_deadline_grace_period : ℕ
edit_deadline_grace_period = 3

pub record GraceState : Type 0 where
  pub reached : Bool
  pub remaining : ℕ
  pub edit_failed_in_grace : Bool

abbrev pub no_grace : GraceState
no_grace = record { reached = false; remaining = 0; edit_failed_in_grace = false }

abbrev deadline_notice : Chars
deadline_notice =
    bytes
      "[EDIT DEADLINE REACHED] You have exhausted your read budget with no edits. Read, Glob, and Grep are now DISABLED. Your next tool call MUST be Edit or Write. "
    ++ bytes "You have "
    ++ decimal edit_deadline_grace_period
    ++ bytes " iterations remaining — use them to make edits NOW."

-- What the deadline does: the new grace state, whether the loop stops, and the messages. While the
-- grace period lasts `remaining` is positive, so the subtraction is exact.
unfoldable pub handle_edit_deadline : GraceState → List Message → GraceState × Bool × List Message
unfolding human_text
handle_edit_deadline gs messages =
    if gs.reached
    then (record gs { remaining = gs.remaining - 1 }, leb (gs.remaining - 1) 0, messages)
    else (
      record gs { reached = true; remaining = edit_deadline_grace_period },
      false,
      messages ++ human_text deadline_notice ∷ [],
    )

unfoldable pub try_reenable_reads : Option EditEnforcer → GraceState → GraceState
try_reenable_reads none gs = gs
try_reenable_reads (some e) gs =
    if gs.reached && e.edit_seen then record gs { reached = false } else gs

unfoldable pub is_failure : Option Chars → Bool
is_failure none = false
is_failure (some result) = is_failed_edit result

unfoldable pub some_edit_failed : List ToolCall → Dict Chars → Bool
unfolding is_failure
some_edit_failed [] results = false
some_edit_failed (tc ∷ tcs) results =
    (is_edit_call tc && is_failure (lookup tc.id results)) || some_edit_failed tcs results

unfoldable pub check_edit_failure : List ToolCall → Dict Chars → GraceState → GraceState
unfolding some_edit_failed
check_edit_failure tool_calls results gs =
    if gs.reached
    then record gs { edit_failed_in_grace = some_edit_failed tool_calls results }
    else gs

unfoldable pub reads_blocked_by_grace : GraceState → Bool
reads_blocked_by_grace gs = gs.reached && not gs.edit_failed_in_grace
