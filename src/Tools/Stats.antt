-- ===== src/Tools/Stats.antt =====
-- tools/efficiency.go: what the calls of a conversation were, counted before they are compacted.
use squad.Base.{
  ℕ, ◌+◌, List, [], ◌∷◌, ◌++◌, Bool, true, false, ◌||◌, Option, none, some, length, take, drop, leb,
  if◌then◌else◌, String,
}
use squad.Base.{◌==◌ as nat_eq}
use squad.Base.Text.{◌==◌}
use squad.Base.Chars.{Chars, bytes, has_prefix, same_text}
use squad.Tools.LoopDetect.{FunctionCall}
use squad.Tools.Messages.{
  Message, Part, text, call, response, cached, binary, Role, ai, human, system, tool, other,
  is_mutating_tool,
}

-- What follows the first place where `key` stands.
unfoldable pub after_first : Chars → Chars → Option Chars
after_first key [] = if has_prefix [] key then some [] else none
after_first key (c ∷ s) =
    let later = after_first key s in
    if has_prefix (c ∷ s) key then some (drop (length key) (c ∷ s)) else later

-- `strings.TrimLeft(rest, ": \t\n")`
unfoldable pub skip_separator : Chars → Chars
skip_separator [] = []
skip_separator (c ∷ s) =
    let rest = skip_separator s in
    if nat_eq c b':' || nat_eq c b' ' || nat_eq c 9 || nat_eq c 10 then rest else c ∷ s

-- The text before the first quote, if there is one.
unfoldable pub before_quote : Chars → Option Chars
before_quote [] = none
before_quote (c ∷ s) =
    let rest = before_quote s in
    if nat_eq c b'"' then some [] else elim rest [ none ↦ none | some t ↦ some (c ∷ t) ]

unfoldable pub or_empty : Option Chars → Chars
or_empty none = []
or_empty (some t) = t

unfoldable pub quoted : Chars → Chars
unfolding before_quote or_empty
quoted [] = []
quoted (c ∷ s) = if nat_eq c b'"' then or_empty (before_quote s) else []

unfoldable pub field_after : Option Chars → Chars
unfolding skip_separator quoted
field_after none = []
field_after (some rest) = quoted (skip_separator rest)

unfoldable pub extract_json_field : Chars → Chars → Chars
unfolding after_first field_after
extract_json_field json field = field_after (after_first (b'"' ∷ (field ++ b'"' ∷ [])) json)

unfoldable pub truncate_string : Chars → ℕ → Chars
truncate_string s max_len = if leb (length s) max_len then s else take max_len s ++ bytes "..."

-- A Go map with texts as keys, by the list of its entries: sets, and counters.
unfoldable pub has_key : Chars → List Chars → Bool
has_key k [] = false
has_key k (j ∷ js) = same_text j k || has_key k js

unfoldable pub add_key : Chars → List Chars → List Chars
unfolding has_key
add_key k keys = if has_key k keys then keys else keys ++ k ∷ []

unfoldable pub count_up : Chars → List (Chars × ℕ) → List (Chars × ℕ)
count_up k [] = (k, 1) ∷ []
count_up k ((j, n) ∷ m) =
    let later = count_up k m in if same_text j k then (j, n + 1) ∷ m else (j, n) ∷ later

pub record CompactionStats : Type 0 where
  pub files_read : List Chars
  pub patterns_searched : List Chars
  pub edits_applied : List (Chars × ℕ)
  pub commands_run : List Chars

abbrev pub no_stats : CompactionStats
no_stats = record { files_read = []; patterns_searched = []; edits_applied = []; commands_run = [] }

-- `if v := extractJSONField(args, field); v != ""`
unfoldable pub with_field : Chars → CompactionStats → (Chars → CompactionStats) → CompactionStats
with_field [] s f = s
with_field (c ∷ v) s f = f (c ∷ v)

unfoldable pub classify_tool_call : CompactionStats → String → Chars → CompactionStats
unfolding with_field add_key count_up
classify_tool_call s name args =
    if name == "Read"
    then with_field (extract_json_field args (bytes "path")) s
        (λ path. record s { files_read = add_key path s.files_read })
    else if name == "Grep"
    then with_field (extract_json_field args (bytes "pattern")) s
        (λ pattern'. record s { patterns_searched = add_key pattern' s.patterns_searched })
    else if is_mutating_tool name
    then with_field (extract_json_field args (bytes "path")) s
        (λ path. record s { edits_applied = count_up path s.edits_applied })
    else if name == "Bash"
    then with_field (extract_json_field args (bytes "command")) s
        (λ cmd. record s { commands_run = s.commands_run ++ truncate_string cmd 80 ∷ [] })
    else s

unfoldable pub classify_function : Option FunctionCall → CompactionStats → CompactionStats
classify_function none s = s
classify_function (some f) s = classify_tool_call s f.name f.arguments

unfoldable pub collect_parts : List Part → CompactionStats → CompactionStats
unfolding classify_function
collect_parts [] s = s
collect_parts (call tc ∷ ps) s = collect_parts ps (classify_function tc.function_call s)
collect_parts (text t ∷ ps) s = collect_parts ps s
collect_parts (response r ∷ ps) s = collect_parts ps s
collect_parts (cached p ∷ ps) s = collect_parts ps s
collect_parts (binary b ∷ ps) s = collect_parts ps s

unfoldable pub is_ai : Role → Bool
is_ai ai = true
is_ai system = false
is_ai human = false
is_ai tool = false
is_ai (other r) = false

unfoldable pub collect_from : List Message → CompactionStats → CompactionStats
unfolding is_ai collect_parts
collect_from [] s = s
collect_from (m ∷ ms) s = collect_from ms (if is_ai m.role then collect_parts m.parts s else s)

unfoldable pub collect_compaction_stats : List Message → CompactionStats
unfolding collect_from
collect_compaction_stats messages = collect_from messages no_stats
