-- ===== src/Tools/Tests.antt =====
-- The tools' theorems at concrete calls.
use squad.Base.{
  ◌≢◌, zero, Result, ok, err, ℕ, suc, String, List, [], ◌∷◌, ◌++◌, Bool, true, false, ◌||◌, Option,
  none, some, ◌≡◌, refl, ◌↔◌, ◌≤◌, ◌<◌, ◌+◌, ◌*◌, ◌^◌, min, arith, inl, inr,
}
use squad.Base.Text.{codes}
use squad.Base.Multiset.{count, chars_eq}
use squad.Base.Chars.{Chars}
use squad.Tools.CmdSafety.{is_blocked_command, is_safe_command, contains_read_command}
use squad.Tools.CmdSafety.Disjoint.{blocked_not_safe}
use squad.Tools.LoopDetect.{LoopDetector, stuck}
use squad.Tools.LoopDetect.Stuck.{IsRepeated, stuck_iff}
use squad.Tools.Retry.{
  authentication, provider_unavailable, effective_retries, Error, Attempt, answered, failed,
  backoff_delay, retry_base_delay, retry_max_delay, is_retryable, retry_generate_content,
}
use squad.Tools.AsciiGuard.{validate_ascii_only}
use squad.Tools.CommentGuard.{lines, validate_comments_only}
use squad.Tools.CommentGuard.CodeLines.{CodeLines}
use squad.Tools.CommentGuard.Kept.{validate_comments_only-CodeLines}
use squad.Tools.MultiEdit.{MultiEditOperation, Modes, multi_edit, written}

rm_is_blocked : is_blocked_command (codes "rm -rf /") ≡ some (codes "rm -rf /")
unfolding is_blocked_command squad.Tools.CmdSafety.first_prefix squad.Base.Chars.trim_space
rm_is_blocked = refl

blocked_not_safe_example : is_safe_command (codes "rm -rf /") ≡ false
blocked_not_safe_example = blocked_not_safe (codes "rm -rf /") (codes "rm -rf /") rm_is_blocked

abbrev three_times : LoopDetector
three_times = record { signatures = "x" ∷ "y" ∷ "x" ∷ "x" ∷ [] }

stuck_iff_example : (stuck three_times ≡ true) ↔ IsRepeated three_times.signatures 10 3
stuck_iff_example = stuck_iff three_times

validate_comments_only-CodeLines_example :
    (before after : List Chars) × CodeLines (lines [] (codes "x := 1 // one")) before
    × CodeLines (lines [] (codes "x := 1 // the first")) after
    × ((validate_comments_only (codes "x := 1 // one") (codes "x := 1 // the first") ≡ none)
        ↔ ((line : Chars) → count line before ≡ count line after))
validate_comments_only-CodeLines_example =
    validate_comments_only-CodeLines (codes "x := 1 // one") (codes "x := 1 // the first")

abbrev edit : MultiEditOperation
edit = record { old = codes "b"; new = codes "bc"; replace_all = true }

abbrev ascii_mode : Modes
ascii_mode = record { comments_only = false; ascii_only = true }

edited : multi_edit ascii_mode (edit ∷ []) (codes "ab b") ≡ written (codes "abc bc") 1 []
unfolding multi_edit squad.Tools.MultiEdit.edits_from squad.Tools.MultiEdit.edit_step
    squad.Tools.MultiEdit.edit_error squad.Base.Chars.contains_text
    squad.Tools.MultiEdit.edit_guard_error validate_ascii_only squad.Base.Multiset.excess
    squad.Tools.MultiEdit.apply_edit
edited = refl

-- A model that is overloaded, and one that refuses.
abbrev overloaded : Error
overloaded = record {
  message = codes "503";
  wrapped = some provider_unavailable;
  context_over = false;
}

abbrev bad_key : Error
bad_key = record { message = codes "401"; wrapped = some authentication; context_over = false }

overloaded-is_retryable : is_retryable (λ c. c) overloaded ≡ true
unfolding is_retryable squad.Tools.Retry.is_retryable_code squad.Tools.Retry.classify_error
overloaded-is_retryable = refl

bad_key_is_final : is_retryable (λ c. c) bad_key ≡ false
unfolding is_retryable squad.Tools.Retry.is_retryable_code squad.Tools.Retry.classify_error
    squad.Tools.Retry.is_unknown
bad_key_is_final = refl
