-- ===== src/Tools/Transcript.antt =====
-- tools/transcript.go: the conversation as it is kept for a later run. The JSON file is the list of
-- its messages. `as_json` is what becomes of a text that is written as JSON and read again:
-- encoding/json puts U+FFFD in place of bytes that are no UTF-8.
pub mod Replay
use squad.Base.{String, List, [], ◌∷◌, ◌++◌, Bool, true, false, Option, none, some, if◌then◌else◌}
use squad.Base.Text.{◌==◌}
use squad.Base.Chars.{Chars}
use squad.Tools.LoopDetect.{ToolCall, FunctionCall}
use squad.Tools.Messages.{
  Message, Role, system, human, ai, tool, other, Part, text, call, response, cached, binary,
  ToolResponse,
}

abbrev pub part_kind_text : String
part_kind_text = "text"

abbrev pub part_kind_tool_call : String
part_kind_tool_call = "tool_call"

abbrev pub part_kind_tool_response : String
part_kind_tool_response = "tool_response"

pub record TranscriptPart : Type 0 where
  pub kind : String
  pub text_of : Chars
  pub id : String
  pub tool_type : String
  pub name : String
  pub args : Chars
  pub tool_call_id : String
  pub content : Chars

pub record TranscriptMessage : Type 0 where
  pub role : Role
  pub parts : List TranscriptPart

abbrev no_part : TranscriptPart
no_part = record {
  kind = "";
  text_of = [];
  id = "";
  tool_type = "";
  name = "";
  args = [];
  tool_call_id = "";
  content = [];
}

unfoldable pub with_function :
    (Chars → Chars) → TranscriptPart → Option FunctionCall → TranscriptPart
with_function as_json tp none = tp
with_function as_json tp (some f) = record tp { name = f.name; args = as_json f.arguments }

-- A part without its cache hint; only one hint is taken off.
unfoldable pub uncached : Part → Part
uncached (cached p) = p
uncached (text t) = text t
uncached (call c) = call c
uncached (response r) = response r
uncached (binary b) = binary b

-- The form on disk, `none` for a part that is skipped.
unfoldable pub encode_part : (Chars → Chars) → Part → Option TranscriptPart
unfolding with_function
encode_part as_json (text t) = some (record no_part { kind = part_kind_text; text_of = as_json t })
encode_part as_json (call c) = some (
    with_function as_json
      (record no_part { kind = part_kind_tool_call; id = c.id; tool_type = c.call_type })
      c.function_call)
encode_part as_json (response r) = some (record no_part {
  kind = part_kind_tool_response;
  tool_call_id = r.tool_call_id;
  name = r.name;
  content = as_json r.content;
})
encode_part as_json (cached p) = none
encode_part as_json (binary b) = none

unfoldable pub encode_parts : (Chars → Chars) → List Part → List TranscriptPart
unfolding encode_part uncached
encode_parts as_json [] = []
encode_parts as_json (p ∷ ps) =
    let rest = encode_parts as_json ps in
    elim (encode_part as_json (uncached p)) [ none ↦ rest | some tp ↦ tp ∷ rest ]

unfoldable pub decode_part : TranscriptPart → Option Part
decode_part p =
    if p.kind == part_kind_text
    then some (text p.text_of)
    else if p.kind == part_kind_tool_call
    then some (
        call (record {
          id = p.id;
          call_type = p.tool_type;
          function_call = some (record { name = p.name; arguments = p.args });
        }))
    else if p.kind == part_kind_tool_response
    then some
        (response (record { tool_call_id = p.tool_call_id; name = p.name; content = p.content }))
    else none

unfoldable pub decode_parts : List TranscriptPart → List Part
unfolding decode_part
decode_parts [] = []
decode_parts (p ∷ ps) =
    let rest = decode_parts ps in elim (decode_part p) [ none ↦ rest | some q ↦ q ∷ rest ]

unfoldable pub is_system : Role → Bool
is_system system = true
is_system human = false
is_system ai = false
is_system tool = false
is_system (other r) = false

-- A message is left out if nothing of it is kept.
unfoldable pub stored : Role → List TranscriptPart → List TranscriptMessage → List TranscriptMessage
stored role [] rest = rest
stored role (p ∷ ps) rest = record { role = role; parts = p ∷ ps } ∷ rest

unfoldable pub encode_messages : (Chars → Chars) → List Message → List TranscriptMessage
unfolding encode_parts is_system stored
encode_messages as_json [] = []
encode_messages as_json (m ∷ ms) =
    let rest = encode_messages as_json ms in
    if is_system m.role then rest else stored m.role (encode_parts as_json m.parts) rest

-- What saving comes to: an error, no file, or a file.
pub data Saved : Type 0 where
  empty_session_dir : Saved
  nothing_to_save : Saved
  written : List TranscriptMessage → Saved

unfoldable pub written_unless_empty : List TranscriptMessage → Saved
written_unless_empty [] = nothing_to_save
written_unless_empty (m ∷ ms) = written (m ∷ ms)

unfoldable pub save_transcript : (Chars → Chars) → String → List Message → Saved
unfolding encode_messages written_unless_empty
save_transcript as_json dir messages =
    if dir == "" then empty_session_dir else written_unless_empty (encode_messages as_json messages)

unfoldable pub decode_messages : List TranscriptMessage → List Message
unfolding decode_parts
decode_messages [] = []
decode_messages (m ∷ ms) =
    record { role = m.role; parts = decode_parts m.parts } ∷ decode_messages ms

-- `none` for a file that is not there.
unfoldable pub load_transcript : Option (List TranscriptMessage) → List Message
unfolding decode_messages
load_transcript none = []
load_transcript (some ms) = decode_messages ms
