-- ===== src/Tools/EditFiles/Tests.antt =====
-- The theorems on Edit, MultiEdit and `ResolvePath` at concrete calls.
use squad.Base.{
  Result, ok, err, ◌>>=◌, ◌>>◌, ℕ, String, List, [], ◌∷◌, Bool, true, false, Option, none, some,
  ◌≡◌, ◌≢◌, refl, ◌<◌, arith, if◌then◌else◌,
}
use squad.Base.Text.{codes}
use squad.Base.Chars.{Chars, same_text}
use squad.Base.Dict.{lookup}
use squad.Skill.Stack.{FilePath}
use squad.Tools.MultiEdit.{MultiEditOperation, Modes}
use squad.Tools.FileTracker.{FileTracker, stale_read, last_read_time}
use squad.Tools.Paths.{PathError, abs_path, joined_path, resolve_path, text_of}
use squad.Tools.Paths.Below.{Below}
use squad.Tools.EditFiles.{
  File, Host, Workspace, Reply, updated, edits_applied, EditArgs, Call, edit, multi_edit_of,
  run_call, run_calls, untracked,
}
use squad.Tools.EditFiles.Kept.{FileKept, run_calls-FileKept}
use squad.Tools.EditFiles.Again.{run_call-again}

abbrev note_path : FilePath
note_path = codes "w" ∷ codes "a.md" ∷ []

abbrev host : Host
host = record {
  cwd = some (codes "/home");
  working_dir = codes "/w";
  name = λ p. if same_text (text_of p) (codes "/w/a.md") then "/w/a.md" else "/";
  can_write = λ file. true;
}

abbrev ascii_mode : Modes
ascii_mode = record { comments_only = false; ascii_only = true }

-- The file was written at 2 and read at 3.
abbrev reads : FileTracker
reads = record { reads = ("/w/a.md", 3) ∷ [] }

abbrev space : Workspace
space = record {
  disk = ("/w/a.md", record { content = codes "ab b"; mod_time = 2 }) ∷ [];
  tracker = some reads;
}

abbrev first : Call
first =
    edit
      (record { path = codes "x/../a.md"; old = codes "b"; new = codes "bc"; replace_all = true })

abbrev second : Call
second =
    multi_edit_of (codes "/w/a.md")
      (record { old = codes "a"; new = codes "d"; replace_all = false } ∷ [])

abbrev space_after : Workspace
space_after = record {
  disk = ("/w/a.md", record { content = codes "abc bc"; mod_time = 5 }) ∷ [];
  tracker = some reads;
}

first_resolved : resolve_path (some (codes "/home")) (codes "/w") (codes "x/../a.md") ≡ ok note_path
unfolding resolve_path joined_path abs_path squad.Tools.Paths.join_path
    squad.Tools.Paths.check_inside squad.Tools.Paths.is_inside squad.Skill.Stack.is_abs
    squad.Skill.Stack.path_of squad.Base.Chars.trim_space same_text squad.Tools.Paths.text_before
    squad.Base.Chars.has_prefix
first_resolved = refl

second_resolved : resolve_path (some (codes "/home")) (codes "/w") (codes "/w/a.md") ≡ ok note_path
unfolding resolve_path joined_path abs_path squad.Tools.Paths.join_path
    squad.Tools.Paths.check_inside squad.Tools.Paths.is_inside squad.Skill.Stack.is_abs
    squad.Skill.Stack.path_of squad.Base.Chars.trim_space same_text squad.Tools.Paths.text_before
    squad.Base.Chars.has_prefix
second_resolved = refl

read_before : last_read_time reads (host.name note_path) < 5
unfolding last_read_time lookup same_text text_of squad.Tools.Paths.text_before
read_before = omega arith

first_edits :
    run_call host ascii_mode 5 first space ≡ ok (updated (codes "x/../a.md") 2, space_after)
unfolding run_call squad.Tools.EditFiles.edit_tool squad.Tools.EditFiles.open_file
    squad.Tools.EditFiles.map_error squad.Tools.EditFiles.check_tracker
    squad.Tools.EditFiles.none_or_error squad.Tools.EditFiles.mod_time_of
    squad.Tools.EditFiles.read_file squad.Tools.EditFiles.replace_in
    squad.Tools.EditFiles.replaced_text squad.Tools.EditFiles.replaced
    squad.Tools.EditFiles.write_file squad.Tools.EditFiles.count_text_from resolve_path joined_path
    abs_path squad.Tools.Paths.join_path squad.Tools.Paths.check_inside squad.Tools.Paths.is_inside
    squad.Skill.Stack.is_abs squad.Skill.Stack.path_of squad.Base.Chars.trim_space same_text
    squad.Tools.Paths.text_before squad.Base.Chars.has_prefix squad.Base.Chars.contains_text text_of
    squad.Base.Dict.insert lookup last_read_time squad.Tools.FileTracker.validate_before_edit
    squad.Tools.MultiEdit.edit_guard_error squad.Tools.AsciiGuard.validate_ascii_only
    squad.Base.Multiset.excess squad.Tools.MultiEdit.apply_edit
first_edits = refl

run_calls-FileKept_example :
    FileKept
      (lookup "/w/a.md" space.disk)
      (lookup "/w/a.md" (run_calls host ascii_mode ((5, first) ∷ (9, second) ∷ []) space).disk)
run_calls-FileKept_example =
    run_calls-FileKept host ascii_mode ((5, first) ∷ (9, second) ∷ []) space "/w/a.md" refl

run_call-again_example : run_call host ascii_mode 9 second space_after ≡ err (untracked stale_read)
run_call-again_example =
    run_call-again host ascii_mode first second 5 9 space space_after
      (updated (codes "x/../a.md") 2) reads note_path refl first_edits first_resolved (read_before)
      second_resolved refl
