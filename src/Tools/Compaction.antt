-- ===== src/Tools/Compaction.antt =====
-- tools/tools.go and tools/efficiency.go: how a long conversation is made shorter.
use squad.Tools.Calibration.{adaptive_compaction_threshold, BudgetUse, TokenCalibration}
use squad.Tools.Rolling.{
  extract_recent_files, collect_edited_files, semantic_keep_threshold, is_tool, middle_length,
}
use squad.Base.{
  ℕ, ◌+◌, List, [], ◌∷◌, ◌++◌, ◌||◌, Option, none, some, length, take, drop, leb, ltb,
  if◌then◌else◌,
}
use squad.Base.{◌==◌ as nat_eq}
use squad.Base.Chars.{Chars, bytes, has_prefix}
use squad.Pipeline.Handoff.{decimal}
use squad.Tools.LoopDetect.{ToolCall, FunctionCall}
use squad.Tools.Messages.{
  Message, Part, text, call, response, cached, binary, ToolResponse, is_mutating_tool,
  estimate_tokens, human_text,
}
use squad.Tools.ReadCache.{ReadCache, summaries, bump_compaction_epoch}
use squad.Tools.Summary.{call_path, compaction_summary, is_nonempty}
use squad.Tools.Stats.{has_key}

-- The scores of the parts, added up.
unfoldable pub path_score : Chars → List Chars → List Chars → ℕ
path_score path edited recent =
    if has_key path edited
    then 60
    else if has_key path recent
    then 40
    else if is_nonempty path
    then 10
    else 0

unfoldable pub call_score : Option FunctionCall → ToolCall → List Chars → List Chars → ℕ
unfolding path_score
call_score none tc edited recent = 0
call_score (some f) tc edited recent =
    (if is_mutating_tool f.name then 80 else 0) + path_score (call_path tc) edited recent

unfoldable pub part_score : Part → List Chars → List Chars → ℕ
unfolding call_score
part_score (call tc) edited recent = call_score tc.function_call tc edited recent
part_score (response r) edited recent =
    if has_prefix r.content (bytes "updated ") || has_prefix r.content (bytes "wrote ")
    then 50
    else 0
part_score (text t) edited recent = 0
part_score (cached p) edited recent = 0
part_score (binary b) edited recent = 0

unfoldable pub parts_score : List Part → List Chars → List Chars → ℕ
unfolding part_score
parts_score [] edited recent = 0
parts_score (p ∷ ps) edited recent = part_score p edited recent + parts_score ps edited recent

unfoldable pub score_message : Message → List Chars → List Chars → ℕ
unfolding parts_score
score_message m edited recent = parts_score m.parts edited recent

unfoldable pub compacted : ToolResponse → ToolResponse
compacted r =
    if ltb 200 (length r.content)
    then record r {
      content =
          bytes "[tool output compacted — was " ++ decimal (length r.content) ++ bytes " bytes]";
    }
    else r

unfoldable pub compact_parts : List Part → List Part
unfolding compacted
compact_parts [] = []
compact_parts (response r ∷ ps) = response (compacted r) ∷ compact_parts ps
compact_parts (text t ∷ ps) = text t ∷ compact_parts ps
compact_parts (call c ∷ ps) = call c ∷ compact_parts ps
compact_parts (cached p ∷ ps) = cached p ∷ compact_parts ps
compact_parts (binary b ∷ ps) = binary b ∷ compact_parts ps

unfoldable pub compact_message : List Chars → List Chars → Message → Message
unfolding score_message compact_parts is_tool
compact_message edited recent m =
    if leb semantic_keep_threshold (score_message m edited recent)
    then m
    else if is_tool m.role
    then record m { parts = compact_parts m.parts }
    else m

unfoldable pub compact_middle : List Chars → List Chars → List Message → List Message
unfolding compact_message
compact_middle edited recent [] = []
compact_middle edited recent (m ∷ ms) =
    compact_message edited recent m ∷ compact_middle edited recent ms

unfoldable pub with_summary : Option Chars → List Message → List Message
unfolding human_text
with_summary none ms = ms
with_summary (some t) ms = human_text t ∷ ms

-- `ratio raw actual est` is `int(float64(raw) * (float64(actual) / float64(est)))`, and `visit` the
-- order in which `range` visits a map.
module _ (ratio : ℕ → ℕ → ℕ → ℕ) (visit : List (Chars × ℕ) → List (Chars × ℕ)) where
  unfoldable pub calibrated_estimate : TokenCalibration → ℕ → ℕ
  calibrated_estimate tc raw =
      if nat_eq tc.samples 0 || nat_eq tc.total_est 0
      then ratio raw 1 1
      else ratio raw tc.total_actual tc.total_est

  unfoldable pub estimate_tokens_calibrated : TokenCalibration → List Message → ℕ
  unfolding calibrated_estimate
  estimate_tokens_calibrated tc messages =
      if leb 2 tc.samples
      then calibrated_estimate tc (estimate_tokens messages)
      else estimate_tokens messages

  -- The messages from the third on; `head` are the first two.
  unfoldable pub compact_rest : ReadCache → List Message → List Message → List Message
  unfolding compact_middle with_summary middle_length
  compact_rest rc head rest =
      let middle = take (middle_length rest) rest in
      let tail = drop (middle_length rest) rest in
      with_summary (compaction_summary visit middle (summaries rc)) (
        compact_middle (collect_edited_files (head ++ middle)) (extract_recent_files tail) middle
        ++ tail)

  -- The messages, and the read cache, which learns that a compaction took place.
  unfoldable pub compact_all : ReadCache → List Message → List Message × ReadCache
  unfolding compact_rest
  compact_all rc [] = ([], rc)
  compact_all rc (a ∷ []) = (a ∷ [], rc)
  compact_all rc (a ∷ b ∷ rest) =
      (a ∷ b ∷ compact_rest rc (a ∷ b ∷ []) rest, bump_compaction_epoch rc)

  unfoldable pub compact_messages :
      TokenCalibration → Option BudgetUse → ReadCache → List Message → List Message × ReadCache
  unfolding compact_all
  compact_messages tc use_of_budget rc messages =
      if ltb (estimate_tokens_calibrated tc messages) (adaptive_compaction_threshold use_of_budget)
      then (messages, rc)
      else compact_all rc messages
