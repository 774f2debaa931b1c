-- ===== src/Tools/Rolling.antt =====
-- tools/tools.go and tools/efficiency.go: the results of tools that are shortened every few iterations.
use squad.Base.{
  ℕ, ◌-◌, ◌%◌, List, [], ◌∷◌, ◌++◌, Bool, true, false, ◌&&◌, ◌||◌, none, some, length, take, drop,
  leb, ltb, if◌then◌else◌, String,
}
use squad.Base.{◌==◌ as nat_eq}
use squad.Base.Text.{◌==◌}
use squad.Base.Chars.{Chars, bytes}
use squad.Pipeline.Handoff.{decimal}
use squad.Tools.Messages.{
  Message, Part, text, call, response, cached, binary, ToolResponse, Role, ai, human, system, tool,
  other, is_mutating_tool, is_edit_call, estimate_tokens,
}
use squad.Tools.Summary.{call_path, paths_from}
use squad.Tools.Stats.{is_ai, has_key}

abbrev pub keep_recent_messages : ℕ
keep_recent_messages = 10

abbrev pub protected_head : ℕ
protected_head = 2

abbrev pub rolling_compact_interval : ℕ
rolling_compact_interval = 15

abbrev pub rolling_compact_min_tokens : ℕ
rolling_compact_min_tokens = 25000

abbrev pub context_token_threshold : ℕ
context_token_threshold = 50000

abbrev pub semantic_keep_threshold : ℕ
semantic_keep_threshold = 30

-- `ExtractRecentFiles` takes every call that has a function; one without has no path either way.
unfoldable pub extract_recent_files : List Message → List Chars
extract_recent_files messages = paths_from (λ tc. true) messages []

unfoldable pub collect_edited_files : List Message → List Chars
collect_edited_files messages = paths_from is_edit_call messages []

unfoldable pub is_tool : Role → Bool
is_tool tool = true
is_tool system = false
is_tool human = false
is_tool ai = false
is_tool (other r) = false

-- The first call of that id decides.
unfoldable pub call_of_edited : List Part → String → List Chars → Bool
call_of_edited [] id edited = false
call_of_edited (call tc ∷ ps) id edited =
    let later = call_of_edited ps id edited in
    elim tc.function_call [
      | none ↦ later
      | some f ↦ if tc.id == id then has_key (call_path tc) edited else later
    ]
call_of_edited (text t ∷ ps) id edited = call_of_edited ps id edited
call_of_edited (response r ∷ ps) id edited = call_of_edited ps id edited
call_of_edited (cached p ∷ ps) id edited = call_of_edited ps id edited
call_of_edited (binary b ∷ ps) id edited = call_of_edited ps id edited

unfoldable pub is_tool_result_for_edited_file : Message → String → List Chars → Bool
unfolding call_of_edited
is_tool_result_for_edited_file message id edited =
    is_ai message.role && call_of_edited message.parts id edited

-- A result that is left as it is: a short one, one of an edit, one of a file that was edited.
unfoldable pub stays : Message → List Chars → ToolResponse → Bool
stays previous edited r =
    leb (length r.content) 500
    || is_mutating_tool r.name
    || is_tool_result_for_edited_file previous r.tool_call_id edited

unfoldable pub rolled : ToolResponse → ToolResponse
rolled r = record r {
  content =
      bytes "[rolling-compacted — was "
      ++ decimal (length r.content)
      ++ bytes " bytes] "
      ++ take 200 r.content
      ++ bytes "...";
}

unfoldable pub compact_tool_parts : List Part → Message → List Chars → List Part
unfolding stays rolled
compact_tool_parts [] previous edited = []
compact_tool_parts (response r ∷ ps) previous edited =
    response (if stays previous edited r then r else rolled r)
    ∷ compact_tool_parts ps previous edited
compact_tool_parts (text t ∷ ps) previous edited = text t ∷ compact_tool_parts ps previous edited
compact_tool_parts (call c ∷ ps) previous edited = call c ∷ compact_tool_parts ps previous edited
compact_tool_parts (cached p ∷ ps) previous edited =
    cached p ∷ compact_tool_parts ps previous edited
compact_tool_parts (binary b ∷ ps) previous edited =
    binary b ∷ compact_tool_parts ps previous edited

-- The loop over the messages between the head and the tail; `previous` is the one before.
unfoldable pub roll_middle : Message → List Message → List Chars → List Message
unfolding compact_tool_parts is_tool
roll_middle previous [] edited = []
roll_middle previous (m ∷ ms) edited =
    let m' =
      if is_tool m.role
      then record m { parts = compact_tool_parts m.parts previous edited }
      else m in
    m' ∷ roll_middle m' ms edited

-- How many messages stand between the head and the tail.
unfoldable pub middle_length : List Message → ℕ
middle_length rest = length rest - keep_recent_messages

-- The messages from the third on; `previous` is the second.
unfoldable pub roll_rest : Message → List Message → List Chars → List Message
unfolding roll_middle middle_length
roll_rest previous rest edited =
    roll_middle previous (take (middle_length rest) rest) edited ++ drop (middle_length rest) rest

unfoldable pub roll_all : List Message → List Chars → List Message
unfolding roll_rest
roll_all [] edited = []
roll_all (a ∷ []) edited = a ∷ []
roll_all (a ∷ b ∷ rest) edited = a ∷ b ∷ roll_rest b rest edited

unfoldable pub rolling_compact : List Message → ℕ → List Message
unfolding roll_all
rolling_compact messages iteration =
    if nat_eq iteration 0
      || (ltb 0 (iteration % rolling_compact_interval)
          || ltb (estimate_tokens messages) rolling_compact_min_tokens)
    then messages
    else roll_all messages (collect_edited_files messages)
