-- ===== src/Tools/Transcript/Replay.antt =====
-- A conversation that is saved and loaded again.
use squad.Base.{
  ◌⊎◌, Bool-cases, sym, ◌⊎◌, Bool-cases, sym, ◌≡◌, ◌≢◌, refl, ap, ◌∙◌, String, List, [], ◌∷◌, map,
  false, some, inl, inr, if◌then◌else◌,
}
use squad.Base.Text.{◌==◌}
use squad.Base.All.{All}
use squad.Base.{Option}
use squad.Base.Chars.{Chars}
use squad.Tools.LoopDetect.{ToolCall, FunctionCall}
use squad.Tools.Messages.{Role, Role, Message, Part, text, call, response, cached, binary}
use squad.Tools.Transcript.{
  nothing_to_save, part_kind_tool_call, nothing_to_save, part_kind_tool_call, TranscriptPart,
  TranscriptMessage, encode_part, uncached, encode_parts, decode_part, decode_parts, with_function,
  is_system, stored, encode_messages, decode_messages, save_transcript, load_transcript, written,
  written_unless_empty,
}

-- The turns of a conversation that a resumed run is given: all messages but the system's, without
-- cache hints.
unfoldable pub turns : List Message → List Message
turns [] = []
turns (m ∷ ms) =
    let rest = turns ms in
    if is_system m.role then rest else record { role = m.role; parts = map uncached m.parts } ∷ rest

module _ (as_json : Chars → Chars) where
  -- A part that the tool loop makes, and whose texts JSON keeps: a text, a call with a function, a
  -- result.
  abbrev IsPlain : Part → Type 0
  IsPlain (text t) = as_json t ≡ t
  IsPlain (call c) =
      (f : FunctionCall) × (c.function_call ≡ some f) × (as_json f.arguments ≡ f.arguments)
  IsPlain (response r) = as_json r.content ≡ r.content
  IsPlain (cached p) = ⊥
  IsPlain (binary b) = ⊥

  -- Such a part, perhaps with one hint.
  abbrev pub IsKept : Part → Type 0
  IsKept (cached p) = IsPlain p
  IsKept (text t) = as_json t ≡ t
  IsKept (call c) =
      (f : FunctionCall) × (c.function_call ≡ some f) × (as_json f.arguments ≡ f.arguments)
  IsKept (response r) = as_json r.content ≡ r.content
  IsKept (binary b) = ⊥

  -- What a part becomes on disk, and that it comes back.
  abbrev Returns : Part → Part → Type 0
  Returns p q =
      (tp : TranscriptPart) × (encode_part as_json p ≡ some tp) × (decode_part tp ≡ some q)

  abbrev call_part : ToolCall → Option FunctionCall → Part
  call_part c o = call (record { id = c.id; call_type = c.call_type; function_call = o })

  plain-Returns : (p : Part) → IsPlain p → Returns p p
  unfolding encode_part with_function decode_part
  plain-Returns (text t) same = (_, refl, ap (λ s. some (text s)) same)
  plain-Returns (call c) (f, e, same) = (
    _,
    ap
        (λ o. some (
          with_function as_json
            (record {
              kind = part_kind_tool_call;
              text_of = [];
              id = c.id;
              tool_type = c.call_type;
              name = "";
              args = [];
              tool_call_id = "";
              content = [];
            })
            o))
        e,
    ap (λ a. some (call_part c (some (record { name = f.name; arguments = a })))) same
        ∙ ap (λ o. some (call_part c o)) (sym e),
  )
  plain-Returns (response r) same = (
    _,
    refl,
    ap (λ s. some (response (record { tool_call_id = r.tool_call_id; name = r.name; content = s })))
        same,
  )
  plain-Returns (cached p) h = absurd h
  plain-Returns (binary b) h = absurd h

  kept-Returns : (p : Part) → IsKept p → Returns (uncached p) (uncached p)
  unfolding uncached
  kept-Returns (cached p) h = plain-Returns p h
  kept-Returns (text t) h = plain-Returns (text t) h
  kept-Returns (call c) h = plain-Returns (call c) h
  kept-Returns (response r) h = plain-Returns (response r) h
  kept-Returns (binary b) h = absurd h

  decode_parts-encode_parts :
      (ps : List Part) → All IsKept ps → decode_parts (encode_parts as_json ps) ≡ map uncached ps
  unfolding decode_parts encode_parts
  decode_parts-encode_parts [] h = refl
  decode_parts-encode_parts (p ∷ ps) h =
      let (tp, there, back) = kept-Returns p h.0 in
      rw (there, encode_parts)
        (rw (back, decode_parts) (ap (λ l. uncached p ∷ l) (decode_parts-encode_parts ps h.1)))

  encode_parts_some :
      (ps : List Part)
      → All IsKept ps
      → ps ≢ []
      → (tp : TranscriptPart) × (rest : List TranscriptPart) × (encode_parts as_json ps ≡ tp ∷ rest)
  unfolding encode_parts
  encode_parts_some [] h some_part = absurd (some_part refl)
  encode_parts_some (p ∷ ps) h some_part =
      let (tp, there, back) = kept-Returns p h.0 in
      (tp, encode_parts as_json ps, rw (there, encode_parts) refl)

  -- A turn has parts, and these are such as the tool loop makes, with texts that JSON keeps.
  abbrev pub AreTurns : List Message → Type 0
  AreTurns ms =
      All (λ (m : Message). is_system m.role ≡ false → (m.parts ≢ []) × All IsKept m.parts) ms

  decode_messages-encode_messages :
      (ms : List Message) → AreTurns ms → decode_messages (encode_messages as_json ms) ≡ turns ms
  unfolding decode_messages encode_messages turns stored
  decode_messages-encode_messages [] h = refl
  decode_messages-encode_messages (m ∷ ms) h = elim (Bool-cases (is_system m.role)) [
    | inl e ↦ rw e (decode_messages-encode_messages ms h.1)
    | inr e ↦
        let (some_part, kept) = h.0 e in
        let (tp, rest, at) = encode_parts_some m.parts kept some_part in
        let parts : decode_parts (tp ∷ rest) ≡ map uncached m.parts =
          ap decode_parts (sym at) ∙ decode_parts-encode_parts m.parts kept in
        rw e (rw at (turn_path m.role parts (decode_messages-encode_messages ms h.1)))
  ]
    where
      turn_path :
          (r : Role) {ps qs : List Part} {ms ns : List Message}
          → ps ≡ qs
          → ms ≡ ns
          → ◌≡◌ {A = List Message}
              (record { role = r; parts = ps } ∷ ms)
              (record { role = r; parts = qs } ∷ ns)
      turn_path r p q = λ i. record { role = r; parts = p i } ∷ q i

  -- A conversation of the tool loop's messages, whose texts JSON keeps, as it does with all that are
  -- UTF-8, and that is saved in a session directory comes back, when the file is loaded, as its
  -- turns: all messages but the system's, in order, without cache hints; where there is none, no
  -- file is written.
  pub load_transcript-save_transcript :
      (dir : String) (ms : List Message)
      → (dir == "") ≡ false
      → AreTurns ms
      → ((save_transcript as_json dir ms ≡ nothing_to_save) × (turns ms ≡ []))
        ⊎ ((file : List TranscriptMessage) × (save_transcript as_json dir ms ≡ written file)
            × (load_transcript (some file) ≡ turns ms))
  unfolding save_transcript written_unless_empty load_transcript
  load_transcript-save_transcript dir ms named h = by_file (encode_messages as_json ms) refl
    where
      back : decode_messages (encode_messages as_json ms) ≡ turns ms
      back = decode_messages-encode_messages ms h

      by_file :
          (file : List TranscriptMessage)
          → encode_messages as_json ms ≡ file
          → ((save_transcript as_json dir ms ≡ nothing_to_save) × (turns ms ≡ []))
            ⊎ ((file : List TranscriptMessage) × (save_transcript as_json dir ms ≡ written file)
                × (load_transcript (some file) ≡ turns ms))
      by_file [] e =
          inl
            (rw (named, e) refl, sym back ∙ ap decode_messages e ∙ (unfold decode_messages in refl))
      by_file (m ∷ rest) e = inr (m ∷ rest, rw (named, e) refl, ap decode_messages (sym e) ∙ back)
