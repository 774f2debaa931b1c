-- ===== src/Tools/EditFiles.antt =====
-- tools/tools.go and tools/multiedit.go: the tools Edit and MultiEdit, from the path that a call names
-- to the file that they write. Arguments are those that the JSON decodes to; times are numbers.
pub mod Written
pub mod Kept
pub mod Again
mod Tests
use mathlib.Core.Option as Option
use squad.Base.{
  Result, ok, err, ◌>>=◌, ◌>>◌, refuse_if, ℕ, zero, suc, String, List, [], ◌∷◌, ◌++◌, Bool, true,
  false, not, Option, none, some, length, drop, if◌then◌else◌, ◌+◌,
}
use squad.Base.Chars.{Chars, has_prefix, contains_text}
use squad.Base.Dict.{Dict, lookup, insert}
use squad.Skill.Stack.{FilePath}
use squad.Tools.FileTracker.{FileTracker, TrackError, validate_before_edit}
use squad.Tools.MultiEdit.{
  MultiEditOperation, Modes, EditError, FailedEdit, EditResult, no_edits, all_failed, written,
  is_nil, edit_guard_error, apply_edit, multi_edit,
}
use squad.Tools.Paths.{PathError, resolve_path}

pub record File : Type 0 where
  pub content : Chars
  pub mod_time : ℕ

-- What a run does not change: where it stands, a clean path as the string that names it, and the
-- files that the system lets it write.
pub record Host : Type 0 where
  pub cwd : Option Chars
  pub working_dir : Chars
  pub name : FilePath → String
  pub can_write : String → Bool

-- The files that can be read, and the tracker of the run's context.
pub record Workspace : Type 0 where
  pub disk : Dict File
  pub tracker : Option FileTracker

pub data ToolError : Type 0 where
  bad_path : PathError → ToolError
  untracked : TrackError → ToolError
  unreadable unwritable old_not_found edits_empty : ToolError
  guarded : EditError → ToolError
  edits_failed : List FailedEdit → ToolError

-- The path of the call, with the number of replacements, or of edits and the edits that failed.
pub data Reply : Type 0 where
  updated : Chars → ℕ → Reply
  edits_applied : Chars → ℕ → List FailedEdit → Reply

-- The error of a step, in the tool's own errors.
unfoldable pub map_error : {E A : Type 0} → (E → ToolError) → Result E A → Result ToolError A
map_error f (ok a) = ok a
map_error f (err e) = err (f e)

unfoldable pub none_or_error : {E : Type 0} → (E → ToolError) → Option E → Result ToolError Unit
none_or_error f none = ok tt
none_or_error f (some e) = err (f e)

-- `os.Stat`, for the time that the tracker asks for.
unfoldable pub mod_time_of : Workspace → String → Option ℕ
mod_time_of ws file = Option.map (λ (f : File). f.mod_time) (lookup file ws.disk)

-- `ValidateBeforeEdit`, if the context has a tracker.
unfoldable pub check_tracker : Workspace → String → Result ToolError Unit
check_tracker ws file =
    none_or_error untracked (validate_before_edit (mod_time_of ws) ws.tracker file)

-- `os.ReadFile`
unfoldable pub read_file : Workspace → String → Result ToolError File
read_file ws file = elim (lookup file ws.disk) [ none ↦ err unreadable | some f ↦ ok f ]

abbrev pub put_file : ℕ → String → Chars → Workspace → Workspace
put_file now file text ws = record ws {
  disk = insert file (record { content = text; mod_time = now }) ws.disk;
}

-- `os.WriteFile`, which fails before it has written anything.
unfoldable pub write_file : Host → ℕ → String → Chars → Workspace → Result ToolError Workspace
write_file host now file text ws =
    if host.can_write file then ok (put_file now file text ws) else err unwritable

-- The arguments of Edit.
pub record EditArgs : Type 0 where
  pub path : Chars
  pub old : Chars
  pub new : Chars
  pub replace_all : Bool

-- `strings.ReplaceAll(s, "", new)`: around every character.
unfoldable pub insert_around : Chars → Chars → Chars
insert_around new [] = new
insert_around new (c ∷ s) = new ++ c ∷ insert_around new s

-- `strings.Count` for a text that is not empty; a round goes on by one character at least.
unfoldable pub count_text_from : ℕ → Chars → Chars → ℕ
count_text_from zero old s = 0
count_text_from (suc f) old [] = 0
count_text_from (suc f) old (c ∷ s) =
    let hit = suc (count_text_from f old (drop (length old) (c ∷ s))) in
    let miss = count_text_from f old s in if has_prefix (c ∷ s) old then hit else miss

unfoldable pub replaced_text : EditArgs → Chars → Chars
replaced_text a content =
    if is_nil a.old
    then (if a.replace_all then insert_around a.new content else a.new ++ content)
    else apply_edit (record { old = a.old; new = a.new; replace_all = a.replace_all }) content

-- The number that the answer gives.
unfoldable pub replaced : EditArgs → Chars → ℕ
replaced a content =
    if a.replace_all
    then (if is_nil a.old
        then suc (length content)
        else count_text_from (length content) a.old content)
    else 1

-- How both tools begin: with the file that the path names.
unfoldable pub open_file : Host → Chars → Workspace → Result ToolError (String × File)
open_file host path ws = map_error bad_path (resolve_path host.cwd host.working_dir path) >>= λ abs.
    check_tracker ws (host.name abs) >> read_file ws (host.name abs) >>= λ f. ok (host.name abs, f)

-- Edit, once the file is read.
unfoldable pub replace_in :
    Host → Modes → ℕ → EditArgs → Workspace → String → File → Result ToolError Workspace
replace_in host modes now a ws file f =
    refuse_if (not (contains_text f.content a.old)) old_not_found
    >> none_or_error guarded (edit_guard_error modes a.old a.new)
    >> write_file host now file (replaced_text a f.content) ws

-- `editTool`
unfoldable pub edit_tool :
    Host → Modes → ℕ → EditArgs → Workspace → Result ToolError (Reply × Workspace)
edit_tool host modes now a ws = open_file host a.path ws >>= λ (file, f).
    replace_in host modes now a ws file f >>= λ after.
    ok (updated a.path (replaced a f.content), after)

-- What MultiEdit does with the text that the edits make, or with their errors.
unfoldable pub settle_edits :
    Host → ℕ → Chars → String → Workspace → EditResult → Result ToolError (Reply × Workspace)
settle_edits host now path file ws no_edits = err edits_empty
settle_edits host now path file ws (all_failed failed) = err (edits_failed failed)
settle_edits host now path file ws (written text applied failed) =
    write_file host now file text ws >>= λ after. ok (edits_applied path applied failed, after)

abbrev is_empty : List MultiEditOperation → Bool
is_empty [] = true
is_empty (e ∷ es) = false

-- `multiEditTool`
unfoldable pub multi_edit_tool :
    Host
    → Modes
    → ℕ
    → Chars
    → List MultiEditOperation
    → Workspace
    → Result ToolError (Reply × Workspace)
multi_edit_tool host modes now path edits ws =
    refuse_if (is_empty edits) edits_empty >> open_file host path ws >>= λ (file, f).
    settle_edits host now path file ws (multi_edit modes edits f.content)

pub data Call : Type 0 where
  edit : EditArgs → Call
  multi_edit_of : Chars → List MultiEditOperation → Call

unfoldable pub run_call : Host → Modes → ℕ → Call → Workspace → Result ToolError (Reply × Workspace)
run_call host modes now (edit a) ws = edit_tool host modes now a ws
run_call host modes now (multi_edit_of path edits) ws = multi_edit_tool host modes now path edits ws

-- An error leaves the files as they are.
unfoldable pub after_call : Workspace → Result ToolError (Reply × Workspace) → Workspace
after_call ws (ok (reply, after)) = after
after_call ws (err e) = ws

-- Calls, each with the time at which it writes.
unfoldable pub run_calls : Host → Modes → List (ℕ × Call) → Workspace → Workspace
run_calls host modes [] ws = ws
run_calls host modes ((now, call) ∷ calls) ws =
    run_calls host modes calls (after_call ws (run_call host modes now call ws))
