-- ===== src/Tools/EditFiles/Again.antt =====
-- A second edit of a file by Edit or MultiEdit, with a tracker that neither tool tells of its writing.
use squad.Base.{
  Result, ok, err, ℕ, String, [], ◌∷◌, Bool, true, false, Option, none, some, ltb, ◌==◌, ◌≡◌, refl,
  sym, subst, ap, ◌∙◌, ◌<◌, inl, inr, arith, Bool-cases,
}
use squad.Base.Text.{eq_refl}
use squad.Base.Chars.{Chars}
use squad.Base.Dict.{lookup-insert}
use squad.Skill.Stack.{FilePath}
use squad.Tools.MultiEdit.{Modes}
use squad.Tools.FileTracker.{
  FileTracker, TrackError, stale_read, last_read_time, staleness, validate_before_edit,
}
use squad.Tools.Paths.{PathError, resolve_path}
use squad.Tools.EditFiles.{
  Host, Workspace, ToolError, Reply, put_file, Call, edit, multi_edit_of, run_call, edit_tool,
  multi_edit_tool, open_file, check_tracker, map_error, none_or_error, mod_time_of, untracked,
}
use squad.Tools.EditFiles.Written.{call_path, run_call-Wrote}

-- A call of Edit, or one of MultiEdit with edits.
abbrev pub has_edits : Call → Bool
has_edits (edit a) = true
has_edits (multi_edit_of path []) = false
has_edits (multi_edit_of path (e ∷ es)) = true

validate_later :
    (stat now_stat : String → Option ℕ) (ft : FileTracker) (file : String) (t : ℕ)
    → validate_before_edit stat (some ft) file ≡ none
    → now_stat file ≡ some t
    → last_read_time ft file < t
    → validate_before_edit now_stat (some ft) file ≡ some stale_read
unfolding validate_before_edit staleness
validate_later stat now_stat ft file t passed modified later =
    elim (Bool-cases (last_read_time ft file == 0)) [
      | inl e ↦ absurd (let k : ◌≡◌ {A = Option TrackError} (some _) none = rw e at passed in cc)
      | inr e ↦ rw (e, modified) (rw (newer (last_read_time ft file) later) refl)
    ]
  where
    newer : (a : ℕ) → a < t → ltb a t ≡ true
    newer a lt = ground arith

mod_time-put :
    (t : ℕ) (file : String) (text : Chars) (ws : Workspace)
    → mod_time_of (put_file t file text ws) file ≡ some t
unfolding mod_time_of
mod_time-put t file text ws =
    rw (lookup-insert file file (record { content = text; mod_time = t }) ws.disk)
      (rw (eq_refl) refl)

open_file_refused :
    (host : Host) (path : Chars) (ws : Workspace) (abs : FilePath) (e : TrackError)
    → resolve_path host.cwd host.working_dir path ≡ ok abs
    → validate_before_edit (mod_time_of ws) ws.tracker (host.name abs) ≡ some e
    → open_file host path ws ≡ err (untracked e)
unfolding open_file check_tracker map_error none_or_error
open_file_refused host path ws abs e resolved refused = rw resolved (rw refused refl)

run_call_refused :
    (host : Host) (modes : Modes) (now : ℕ) (call : Call) (ws : Workspace) (e : ToolError)
    → has_edits call ≡ true
    → open_file host (call_path call) ws ≡ err e
    → run_call host modes now call ws ≡ err e
unfolding run_call edit_tool multi_edit_tool
run_call_refused host modes now (edit a) ws e any h = rw h refl
run_call_refused host modes now (multi_edit_of path []) ws e any h = absurd (cc)
run_call_refused host modes now (multi_edit_of path (x ∷ es)) ws e any h = rw h refl

-- In a run with a tracker: after a call has edited a file, at a time later than the file's last Read,
-- the next call of Edit, or of MultiEdit with edits, for the same file is refused as stale,
-- although nobody else has changed the file.
pub run_call-again :
    (host : Host) (modes : Modes) (first second : Call) (now next : ℕ) (ws after : Workspace)
    (reply : Reply) (ft : FileTracker) (abs : FilePath)
    → ws.tracker ≡ some ft
    → run_call host modes now first ws ≡ ok (reply, after)
    → resolve_path host.cwd host.working_dir (call_path first) ≡ ok abs
    → last_read_time ft (host.name abs) < now
    → resolve_path host.cwd host.working_dir (call_path second) ≡ ok abs
    → has_edits second ≡ true
    → run_call host modes next second after ≡ err (untracked stale_read)
run_call-again host modes first second now next ws after reply ft abs tracks edited named later
      again any =
    let (file, before, (place, resolved, same, tracked, found), text, put, keeps) =
      run_call-Wrote host modes now first ws after reply edited in
    let here : place ≡ abs = ok_same (sym resolved ∙ named) in
    let at_file : host.name abs ≡ file = ap (λ p. host.name p) (sym here) ∙ same in
    let stat = mod_time_of (put_file now file text ws) in
    run_call_refused host modes next second after (untracked stale_read) any (
      open_file_refused host (call_path second) after abs stale_read again (
        subst
          (λ s. validate_before_edit (mod_time_of s) s.tracker (host.name abs) ≡ some stale_read)
          put
          (subst (λ n. validate_before_edit stat ws.tracker n ≡ some stale_read) (sym at_file)
            (subst (λ m. validate_before_edit stat m file ≡ some stale_read) (sym tracks)
              (validate_later (mod_time_of ws) stat ft file now
                (subst (λ m. validate_before_edit (mod_time_of ws) m file ≡ none) tracks tracked)
                (mod_time-put now file text ws)
                (subst (λ n. last_read_time ft n < now) at_file later))))))
  where
    ok_same : {p q : FilePath} → ◌≡◌ {A = Result PathError FilePath} (ok p) (ok q) → p ≡ q
    ok_same e = cc
