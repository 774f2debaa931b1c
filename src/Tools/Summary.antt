-- ===== src/Tools/Summary.antt =====
-- tools/efficiency.go: what is taken from the messages of a conversation before they are shortened.
use squad.Base.Sort.{join, insertion_sort}
use squad.Tools.Stats.{CompactionStats, add_key, collect_compaction_stats, extract_json_field}
use squad.Base.{
  ℕ, ◌-◌, List, [], ◌∷◌, ◌++◌, Bool, true, false, ◌||◌, Option, none, some, length, take, ltb,
  if◌then◌else◌,
}
use squad.Base.Chars.{Chars, bytes, same_text}
use squad.Base.Dict.{Dict}
use squad.Pipeline.Handoff.{decimal}
use squad.Tools.LoopDetect.{ToolCall}
use squad.Tools.Messages.{Message, Part, text, call, response, cached, binary}

unfoldable pub capped_list : Chars → List Chars → ℕ → Chars
unfolding join
capped_list label items most =
    label
    ++ (if ltb most (length items)
        then join (bytes ", ") (take most items)
          ++ bytes " ... and "
          ++ decimal (length items - most)
          ++ bytes " more"
        else join (bytes ", ") items)
    ++ bytes "\n"

-- `summaries[path]`: its keys are the paths that `resolvePathInRun` returns.
unfoldable pub summary_at : Chars → Dict Chars → Option Chars
summary_at path [] = none
summary_at path ((k, summary) ∷ m) =
    let later = summary_at path m in if same_text (bytes k) path then some summary else later

unfoldable pub file_line : Dict Chars → Chars → Chars
unfolding summary_at
file_line summaries path = elim (summary_at path summaries) [
  | none ↦ bytes "  " ++ path ++ bytes "\n"
  | some summary ↦ bytes "  " ++ path ++ bytes " — " ++ summary ++ bytes "\n"
]

unfoldable pub file_lines : Dict Chars → List Chars → Chars
unfolding file_line
file_lines summaries [] = []
file_lines summaries (path ∷ paths) = file_line summaries path ++ file_lines summaries paths

unfoldable pub files_part : Dict Chars → List Chars → Chars
unfolding file_lines capped_list
files_part [] keys = capped_list (bytes "Files read: ") keys 30
files_part (e ∷ summaries) keys =
    bytes "Files previously read (do NOT re-read — use these summaries to write edits):\n"
    ++ file_lines (e ∷ summaries) (take 30 keys)
    ++ (if ltb 30 (length keys)
        then bytes "  ... and " ++ decimal (length keys - 30) ++ bytes " more files\n"
        else [])

unfoldable pub edit_entries : List (Chars × ℕ) → List Chars
edit_entries [] = []
edit_entries ((path, count) ∷ m) =
    (path ++ bytes " (" ++ decimal count ++ bytes ")") ∷ edit_entries m

unfoldable pub is_nonempty : {A : Type 0} → List A → Bool
is_nonempty [] = false
is_nonempty (x ∷ xs) = true

-- `sorted` and `visit` put the keys of a set in order, and the entries of a map in the order in which
-- `range` visits them; `none` is the empty summary.
unfoldable pub summary_text :
    (List (Chars × ℕ) → List (Chars × ℕ)) → CompactionStats → Dict Chars → Option Chars
unfolding files_part capped_list edit_entries is_nonempty insertion_sort join
summary_text visit s summaries =
    if is_nonempty s.files_read || is_nonempty s.edits_applied
    then some (
        bytes "[SESSION STATE after context compaction]\n"
        ++ (if is_nonempty s.files_read
            then files_part summaries (insertion_sort [] s.files_read)
            else [])
        ++ (if is_nonempty s.patterns_searched
            then capped_list (bytes "Patterns searched: ") (insertion_sort [] s.patterns_searched)
                15
            else [])
        ++ (if is_nonempty s.edits_applied
            then capped_list (bytes "Edits applied: ") (edit_entries (visit s.edits_applied)) 30
            else [])
        ++ (if is_nonempty s.commands_run
            then bytes "Commands run: " ++ join (bytes "; ") (take 10 s.commands_run) ++ bytes "\n"
            else [])
        ++ bytes
            "Do NOT re-read files listed above — write edits from the summaries and your notes.\n")
    else none

unfoldable pub compaction_summary :
    (List (Chars × ℕ) → List (Chars × ℕ)) → List Message → Dict Chars → Option Chars
compaction_summary visit messages summaries =
    summary_text visit (collect_compaction_stats messages) summaries

-- The `path` argument of a call, the empty text if there is none.
unfoldable pub call_path : ToolCall → Chars
call_path tc = elim tc.function_call [
  | none ↦ []
  | some f ↦ extract_json_field f.arguments (bytes "path")
]

unfoldable pub add_path : Chars → List Chars → List Chars
add_path [] files = files
add_path (c ∷ path) files = add_key (c ∷ path) files

-- The loops of `ExtractRecentFiles` and `CollectEditedFiles`, which differ in the calls they take.
unfoldable pub paths_in : (ToolCall → Bool) → List Part → List Chars → List Chars
unfolding call_path add_path
paths_in keep [] files = files
paths_in keep (call tc ∷ ps) files =
    paths_in keep ps (if keep tc then add_path (call_path tc) files else files)
paths_in keep (text t ∷ ps) files = paths_in keep ps files
paths_in keep (response r ∷ ps) files = paths_in keep ps files
paths_in keep (cached p ∷ ps) files = paths_in keep ps files
paths_in keep (binary b ∷ ps) files = paths_in keep ps files

unfoldable pub paths_from : (ToolCall → Bool) → List Message → List Chars → List Chars
unfolding paths_in
paths_from keep [] files = files
paths_from keep (m ∷ ms) files = paths_from keep ms (paths_in keep m.parts files)
