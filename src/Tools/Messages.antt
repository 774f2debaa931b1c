-- ===== src/Tools/Messages.antt =====
-- tools/tools.go: the messages between the loop and the model. A text is the list of its bytes.
use squad.Base.{
  ℕ, ◌+◌, ◌/◌, String, List, [], ◌∷◌, ◌++◌, Bool, true, false, ◌||◌, Option, none, some, length,
  if◌then◌else◌,
}
use squad.Base.Text.{◌==◌}
use squad.Base.Chars.{Chars, bytes, has_prefix, contains_text}
use squad.Base.Dict.{Dict, lookup, insert}
use squad.Tools.LoopDetect.{ToolCall}

-- `llms.ChatMessageType`, by the values that the loop writes, and any other.
pub data Role : Type 0 where
  system human ai tool : Role
  other : String → Role

-- `llms.ToolCallResponse`
pub record ToolResponse : Type 0 where
  pub tool_call_id : String
  pub name : String
  pub content : Chars

-- `llms.ContentPart`: a text, a call, a result, a part with a cache hint, or any other kind.
pub data Part : Type 0 where
  text : Chars → Part
  call : ToolCall → Part
  response : ToolResponse → Part
  cached : Part → Part
  binary : Chars → Part

pub record Message : Type 0 where
  pub role : Role
  pub parts : List Part

unfoldable pub human_text : Chars → Message
human_text t = record { role = human; parts = text t ∷ [] }

-- `IsMutatingTool`, and `isEditTool`
unfoldable pub is_mutating_tool : String → Bool
is_mutating_tool name = name == "Edit" || name == "MultiEdit" || name == "Write"

-- The name of a call that has a function.
unfoldable pub call_name : ToolCall → Option String
call_name tc = elim tc.function_call [ none ↦ none | some f ↦ some f.name ]

unfoldable pub edits : Option String → Bool
unfolding is_mutating_tool
edits none = false
edits (some name) = is_mutating_tool name

-- The call is one of a tool that writes.
unfoldable pub is_edit_call : ToolCall → Bool
unfolding call_name edits
is_edit_call tc = edits (call_name tc)

unfoldable pub extract_tool_names : List ToolCall → List String
unfolding call_name
extract_tool_names [] = []
extract_tool_names (tc ∷ tcs) =
    let names = extract_tool_names tcs in
    elim (call_name tc) [ none ↦ names | some name ↦ name ∷ names ]

-- The map from ids to contents; a later part replaces an earlier one of its id.
unfoldable pub results_of : List Part → Dict Chars → Dict Chars
unfolding insert
results_of [] m = m
results_of (response r ∷ ps) m = results_of ps (insert r.tool_call_id r.content m)
results_of (text t ∷ ps) m = results_of ps m
results_of (call c ∷ ps) m = results_of ps m
results_of (cached p ∷ ps) m = results_of ps m
results_of (binary b ∷ ps) m = results_of ps m

unfoldable pub last_message : List Message → Option Message
last_message [] = none
last_message (m ∷ []) = some m
last_message (m ∷ n ∷ ms) = last_message (n ∷ ms)

unfoldable pub extract_tool_results : List Message → Dict Chars
unfolding results_of last_message
extract_tool_results messages = elim (last_message messages) [
  | none ↦ []
  | some m ↦ results_of m.parts []
]

-- A result that starts with "error:" or contains "text not found".
unfoldable pub is_failed_edit : Chars → Bool
is_failed_edit result =
    has_prefix result (bytes "error:") || contains_text result (bytes "text not found")

-- What `result := results[tc.ID]` reads: a missing key gives the empty text.
unfoldable pub result_of : Dict Chars → String → Chars
result_of results id = elim (lookup id results) [ none ↦ [] | some c ↦ c ]

unfoldable pub is_present : Chars → Bool
is_present [] = false
is_present (c ∷ s) = true

unfoldable pub wrap : Bool → Part → Part
wrap true p = cached p
wrap false p = p

unfoldable pub build_initial_messages : Chars → Chars → Bool → List Message
unfolding wrap is_present
build_initial_messages system_prompt user_prompt use_cache_control =
    let user : Message = record {
      role = human;
      parts = wrap use_cache_control (text user_prompt) ∷ [];
    } in
    if is_present system_prompt
    then record { role = system; parts = wrap use_cache_control (text system_prompt) ∷ [] }
      ∷ user
      ∷ []
    else user ∷ []

unfoldable pub call_parts : List ToolCall → List Part
call_parts [] = []
call_parts (tc ∷ tcs) = call tc ∷ call_parts tcs

-- The calls come before the text.
unfoldable pub append_tool_call_message : List Message → Chars → List ToolCall → List Message
unfolding call_parts is_present
append_tool_call_message messages text_content tool_calls =
    messages
    ++ record {
      role = ai;
      parts =
          call_parts tool_calls ++ (if is_present text_content then text text_content ∷ [] else []);
    }
      ∷ []

unfoldable pub part_tokens : Part → ℕ
part_tokens (text t) = length t / 4
part_tokens (response r) = length r.content / 4
part_tokens (call c) = 0
part_tokens (cached p) = 0
part_tokens (binary b) = 0

unfoldable pub parts_tokens : List Part → ℕ
unfolding part_tokens
parts_tokens [] = 0
parts_tokens (p ∷ ps) = part_tokens p + parts_tokens ps

unfoldable pub estimate_tokens : List Message → ℕ
unfolding parts_tokens
estimate_tokens [] = 0
estimate_tokens (m ∷ ms) = parts_tokens m.parts + estimate_tokens ms

-- All messages but the last, which there is.
unfoldable pub before_last : Message → List Message → List Message
before_last m [] = []
before_last m (n ∷ ms) = m ∷ before_last n ms

unfoldable pub last_of : Message → List Message → Message
last_of m [] = m
last_of m (n ∷ ms) = last_of n ms

unfoldable pub splice_prior_messages : List Message → List Message → List Message
unfolding before_last last_of
splice_prior_messages initial [] = initial
splice_prior_messages [] (p ∷ prior) = p ∷ prior
splice_prior_messages (m ∷ ms) (p ∷ prior) = before_last m ms ++ (p ∷ prior) ++ last_of m ms ∷ []
