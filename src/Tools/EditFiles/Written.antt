-- ===== src/Tools/EditFiles/Written.antt =====
-- What the tools Edit and MultiEdit have done, if they succeed.
use squad.Base.{
  ap, ◌∙◌, Result, ok, err, ℕ, String, List, [], ◌∷◌, ◌++◌, Bool, true, false, Option, none, some,
  ◌≡◌, refl, subst, ◌≤◌, arith, Bool-cases, inl, inr, if◌then◌else◌,
}
use squad.Base.{bind_inv, then_inv}
use squad.Base.Chars.{Chars}
use squad.Base.Dict.{lookup}
use squad.Base.Multiset.{nat_eq, count, count-append}
use squad.Skill.Stack.{FilePath}
use squad.Tools.AsciiGuard.{KeepsAscii}
use squad.Tools.MultiEdit.{
  MultiEditOperation, Modes, EditResult, no_edits, all_failed, written, is_nil, edit_guard_error,
  multi_edit,
}
use squad.Tools.MultiEdit.Guarded.{count-apply_edit, guard_keeps, multi_edit_keeps}
use squad.Tools.FileTracker.{validate_before_edit}
use squad.Tools.Paths.{resolve_path}
use squad.Tools.EditFiles.{
  File, Host, Workspace, ToolError, Reply, map_error, none_or_error, check_tracker, read_file,
  mod_time_of, put_file, write_file, EditArgs, insert_around, replaced_text, edit_tool,
  settle_edits, multi_edit_tool, Call, edit, multi_edit_of, run_call, unreadable, open_file,
  replace_in,
}

map_error_ok :
    {E A : Type 0} (f : E → ToolError) (m : Result E A) (a : A) → map_error f m ≡ ok a → m ≡ ok a
unfolding map_error
map_error_ok f (ok b) a h = cc
map_error_ok f (err e) a h = absurd (cc)

none_passed : {E : Type 0} (f : E → ToolError) (m : Option E) → none_or_error f m ≡ ok tt → m ≡ none
unfolding none_or_error
none_passed f none h = refl
none_passed f (some e) h = absurd (cc)

ok_same : {A : Type 0} (a b : A) → ◌≡◌ {A = Result ToolError A} (ok a) (ok b) → a ≡ b
ok_same a b h = cc

read_file_ok :
    (ws : Workspace) (file : String) (f : File)
    → read_file ws file ≡ ok f
    → lookup file ws.disk ≡ some f
unfolding read_file
read_file_ok ws file f h = found (lookup file ws.disk) h
  where
    found :
        (m : Option File)
        → ◌≡◌ {A = Result ToolError File} (elim m [ none ↦ err unreadable | some g ↦ ok g ]) (ok f)
        → m ≡ some f
    found none h = absurd (cc)
    found (some g) h = cc

write_file_ok :
    (host : Host) (now : ℕ) (file : String) (text : Chars) (ws after : Workspace)
    → write_file host now file text ws ≡ ok after
    → put_file now file text ws ≡ after
unfolding write_file
write_file_ok host now file text ws after h = elim (Bool-cases (host.can_write file)) [
  | inl e ↦ ok_same _ after (rw e at h)
  | inr e ↦
      absurd (let k : ◌≡◌ {A = Result ToolError Workspace} (err _) (ok after) = rw e at h in cc)
]

count-insert_around :
    (r : ℕ) (new s : Chars) → count r new ≤ 0 → count r (insert_around new s) ≤ count r s
unfolding count insert_around
count-insert_around r new [] h = h
count-insert_around r new (c ∷ s) h =
    let here = count-append r new (c ∷ insert_around new s) in
    let later = count-insert_around r new s h in ground (arith, here, later)

count-replaced_text :
    (r : ℕ) (a : EditArgs) (s : Chars)
    → count r a.new ≤ count r a.old
    → count r (replaced_text a s) ≤ count r s
unfolding replaced_text count
count-replaced_text r a s fewer = elim (Bool-cases (is_nil a.old)) [
  | inl e ↦ rw e (none_there a.replace_all (elim_nil a.old e fewer))
  | inr e ↦ rw e (count-apply_edit r a.old a.new fewer a.replace_all s)
]
  where
    elim_nil : (old : Chars) → is_nil old ≡ true → count r a.new ≤ count r old → count r a.new ≤ 0
    elim_nil [] e le = le
    elim_nil (c ∷ old) e le = absurd (cc)

    none_there :
        (all : Bool)
        → count r a.new ≤ 0
        → count r (if all then insert_around a.new s else a.new ++ s) ≤ count r s
    none_there true le = count-insert_around r a.new s le
    none_there false le = omega (arith, count-append r a.new s)

-- The call's path names a file that the tracker lets it edit, and that can be read.
abbrev pub Opened : Host → Chars → Workspace → String → File → Type 0
Opened host path ws file before =
    (abs : FilePath) × (resolve_path host.cwd host.working_dir path ≡ ok abs)
    × (host.name abs ≡ file)
    × (validate_before_edit (mod_time_of ws) ws.tracker file ≡ none)
    × (lookup file ws.disk ≡ some before)

open_file-Opened :
    (host : Host) (path : Chars) (ws : Workspace) (file : String) (before : File)
    → open_file host path ws ≡ ok (file, before)
    → Opened host path ws file before
unfolding open_file check_tracker
open_file-Opened host path ws file before h =
    let (abs, resolved, h1) = bind_inv _ _ _ h in
    let (f, opened, same) = bind_inv _ _ _ h1 in
    let (tracked, found) = then_inv _ _ _ opened in
    let named : host.name abs ≡ file = ap (λ (e : String × File). e.0) (ok_same _ _ same) in
    let read : f ≡ before = ap (λ (e : String × File). e.1) (ok_same _ _ same) in
    (
      abs,
      map_error_ok _ _ _ resolved,
      named,
      none_passed _ _ (subst (λ n. check_tracker ws n ≡ ok tt) named tracked),
      subst (λ n. lookup n ws.disk ≡ some before) named
          (read_file_ok ws (host.name abs) f found ∙ ap some read),
    )

replace_in_ok :
    (host : Host) (modes : Modes) (now : ℕ) (a : EditArgs) (ws : Workspace) (file : String)
    (f : File) (after : Workspace)
    → replace_in host modes now a ws file f ≡ ok after
    → (edit_guard_error modes a.old a.new ≡ none)
      × (put_file now file (replaced_text a f.content) ws ≡ after)
unfolding replace_in
replace_in_ok host modes now a ws file f after h =
    let (checks, write) = then_inv _ _ _ h in
    let (has_old, guarded) = then_inv _ _ _ checks in
    (none_passed _ _ guarded, write_file_ok host now file _ ws after write)

-- The call has written one file: that which its path names, which could be read before, and in
-- ASCII-only mode a text with no more of any character outside ASCII.
abbrev pub Wrote : Host → Modes → ℕ → Chars → Workspace → Workspace → Type 0
Wrote host modes now path ws after =
    (file : String) × (before : File) × Opened host path ws file before
    × (text : Chars) × (put_file now file text ws ≡ after)
    × (modes.ascii_only ≡ true → KeepsAscii before.content text)

edit_tool-Wrote :
    (host : Host) (modes : Modes) (now : ℕ) (a : EditArgs) (ws after : Workspace) (reply : Reply)
    → edit_tool host modes now a ws ≡ ok (reply, after)
    → Wrote host modes now a.path ws after
unfolding edit_tool
edit_tool-Wrote host modes now a ws after reply h =
    let ((file, before), opened, h1) = bind_inv _ _ _ h in
    let (out, wrote, same) = bind_inv _ _ _ h1 in
    let (passed, put) = replace_in_ok host modes now a ws file before out wrote in
    (
      file,
      before,
      open_file-Opened host a.path ws file before opened,
      replaced_text a before.content,
      put ∙ ap (λ (e : Reply × Workspace). e.1) (ok_same _ _ same),
      λ on r lt.
          count-replaced_text r a before.content (guard_keeps modes a.old a.new on passed r lt),
    )

multi_edit_tool-Wrote :
    (host : Host) (modes : Modes) (now : ℕ) (path : Chars) (edits : List MultiEditOperation)
    (ws after : Workspace) (reply : Reply)
    → multi_edit_tool host modes now path edits ws ≡ ok (reply, after)
    → Wrote host modes now path ws after
unfolding multi_edit_tool settle_edits
multi_edit_tool-Wrote host modes now path edits ws after reply h =
    let (start, started, h1) = bind_inv _ _ _ h in
    let (any, found) = then_inv _ _ _ started in
    settled start.0 start.1 found (multi_edit modes edits start.1.content) refl h1
  where
    settled :
        (file : String) (before : File)
        → open_file host path ws ≡ ok (file, before)
        → (m : EditResult) → multi_edit modes edits before.content ≡ m
        → settle_edits host now path file ws m ≡ ok (reply, after)
        → Wrote host modes now path ws after
    settled file before opened no_edits e k = absurd (cc)
    settled file before opened (all_failed failed) e k = absurd (cc)
    settled file before opened (written text applied failed) e k =
        let (out, wrote, same) = bind_inv _ _ _ k in
        (
          file,
          before,
          open_file-Opened host path ws file before opened,
          text,
          write_file_ok host now file text ws out wrote
              ∙ ap (λ (e : Reply × Workspace). e.1) (ok_same _ _ same),
          λ on. multi_edit_keeps modes edits before.content text applied failed on e,
        )

-- The path of a call.
abbrev pub call_path : Call → Chars
call_path (edit a) = a.path
call_path (multi_edit_of path edits) = path

pub run_call-Wrote :
    (host : Host) (modes : Modes) (now : ℕ) (call : Call) (ws after : Workspace) (reply : Reply)
    → run_call host modes now call ws ≡ ok (reply, after)
    → Wrote host modes now (call_path call) ws after
unfolding run_call
run_call-Wrote host modes now (edit a) ws after reply h =
    edit_tool-Wrote host modes now a ws after reply h
run_call-Wrote host modes now (multi_edit_of path edits) ws after reply h =
    multi_edit_tool-Wrote host modes now path edits ws after reply h
