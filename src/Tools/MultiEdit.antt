-- ===== src/Tools/MultiEdit.antt =====
-- tools/multiedit.go: several replacements in one file, under the guards of the run.
pub mod Guarded
use squad.Base.{
  ◌&&◌, ℕ, zero, suc, List, [], ◌∷◌, ◌++◌, Bool, true, false, not, Option, none, some, length, drop,
  if◌then◌else◌,
}
use squad.Base.Chars.{Chars, has_prefix, contains_text}
use squad.Tools.AsciiGuard.{validate_ascii_only}
use squad.Tools.CommentGuard.{validate_comments_only}

pub record MultiEditOperation : Type 0 where
  pub old : Chars
  pub new : Chars
  pub replace_all : Bool

-- Why an edit failed.
pub data EditError : Type 0 where
  old_empty text_not_found comments_only ascii_only : EditError

pub record FailedEdit : Type 0 where
  pub index : ℕ
  pub old : Chars
  pub error : EditError

-- The modes of the run's context.
pub record Modes : Type 0 where
  pub comments_only : Bool
  pub ascii_only : Bool

abbrev is_refused {ℓ} : {A : Type ℓ} → Option A → Bool
is_refused none = false
is_refused (some a) = true

-- `editGuardError` of tools/asciiguard.go: comments first, then ASCII.
unfoldable pub edit_guard_error : Modes → Chars → Chars → Option EditError
edit_guard_error modes old_text new_text =
    if modes.comments_only && is_refused (validate_comments_only old_text new_text)
    then some EditError.comments_only
    else if modes.ascii_only && is_refused (validate_ascii_only old_text new_text)
    then some EditError.ascii_only
    else none

-- `strings.Replace(s, old, new, 1)`: the first occurrence.
unfoldable pub replace_first : Chars → Chars → Chars → Chars
unfolding has_prefix
replace_first old new [] = []
replace_first old new (c ∷ s) =
    let rest = c ∷ replace_first old new s in
    if has_prefix (c ∷ s) old then new ++ drop (length old) (c ∷ s) else rest

-- `strings.ReplaceAll` for a text that is not empty; a round goes on by one character at least.
unfoldable pub replace_all_from : ℕ → Chars → Chars → Chars → Chars
unfolding has_prefix
replace_all_from zero old new s = s
replace_all_from (suc f) old new [] = []
replace_all_from (suc f) old new (c ∷ s) =
    let hit = new ++ replace_all_from f old new (drop (length old) (c ∷ s)) in
    let miss = c ∷ replace_all_from f old new s in if has_prefix (c ∷ s) old then hit else miss

unfoldable pub apply_edit : MultiEditOperation → Chars → Chars
unfolding replace_first replace_all_from
apply_edit e content =
    if e.replace_all
    then replace_all_from (length content) e.old e.new content
    else replace_first e.old e.new content

abbrev pub is_nil : Chars → Bool
is_nil [] = true
is_nil (c ∷ s) = false

-- Why an edit cannot be applied to the content, if it cannot.
unfoldable pub edit_error : Modes → MultiEditOperation → Chars → Option EditError
edit_error modes e content =
    if is_nil e.old
    then some old_empty
    else if contains_text content e.old
    then edit_guard_error modes e.old e.new
    else some text_not_found

-- The variables of the loop.
pub record Progress : Type 0 where
  pub content : Chars
  pub applied : ℕ
  pub failed : List FailedEdit

-- What the loop does with an edit, by whether it failed.
unfoldable pub settle_edit : ℕ → MultiEditOperation → Progress → Option EditError → Progress
settle_edit i e p (some why) = record p {
  failed = p.failed ++ record { index = i; old = e.old; error = why } ∷ [];
}
settle_edit i e p none = record p { content = apply_edit e p.content; applied = suc p.applied }

-- The body of the loop.
unfoldable pub edit_step : Modes → ℕ → MultiEditOperation → Progress → Progress
unfolding settle_edit
edit_step modes i e p = settle_edit i e p (edit_error modes e p.content)

-- `i` counts the rounds.
unfoldable pub edits_from : Modes → ℕ → List MultiEditOperation → Progress → Progress
edits_from modes i [] p = p
edits_from modes i (e ∷ es) p = edits_from modes (suc i) es (edit_step modes i e p)

-- What the tool does to the file, with what it reports.
pub data EditResult : Type 0 where
  no_edits : EditResult
  all_failed : List FailedEdit → EditResult
  written : Chars → ℕ → List FailedEdit → EditResult

unfoldable pub finish : Chars → ℕ → List FailedEdit → EditResult
finish content zero failed = all_failed failed
finish content (suc n) failed = written content (suc n) failed

-- `multiEditTool`, from the text of the file on.
unfoldable pub multi_edit : Modes → List MultiEditOperation → Chars → EditResult
unfolding finish
multi_edit modes [] content = no_edits
multi_edit modes (e ∷ es) content =
    let p = edits_from modes 0 (e ∷ es) (record { content = content; applied = 0; failed = [] }) in
    finish p.content p.applied p.failed
