-- ===== src/Tools/ToolLoop/Tests.antt =====
-- The tool loop with a model that reads one file after the other, and the loop's theorems there.
use squad.Tools.EditEnforcer.{edit_deadline_grace_period}
use mathlib.Core.Option.{some-injective}
use squad.Base.{
  ℕ, zero, suc, ◌+◌, ◌≤◌, ◌≡◌, ◌≢◌, ◌↔◌, ◌⊎◌, refl, sym, subst, inl, inr, String, List, [], ◌∷◌,
  ◌++◌, Bool, true, false, Option, none, some, Result, ok, err, Bool-cases, ltb, map, if◌then◌else◌,
  ◌&&◌, arith,
}
use squad.Base.Text.{eq_iff, ◌==◌}
use squad.Base.Int.{pos}
use squad.Base.Chars.{Chars, bytes}
use squad.Base.Dict.{lookup}
use squad.Pipeline.Handoff.{decimal}
use squad.Tools.LoopDetect.{ToolCall, FunctionCall}
use squad.Tools.Messages.{
  is_present, is_mutating_tool, Message, human, ai, tool, system, text, call, response, cached,
  human_text,
}
use squad.Tools.PhaseEnforcer
use squad.Tools.PhaseEnforcer.{new_phase_enforcer}
use squad.Tools.ReadCache.{
  FileRead, new_read_cache, check_read_cache, bump_compaction_epoch, size_of,
}
use squad.Tools.ReadCache.Served.{IsServed, IsCurrent, check_read_cache_lem}
use squad.Tools.Dispatch.{Handler, Place, Context}
use squad.Tools.ToolLoop.{Env, Choice, Loop, iteration_limit_reached, edit_deadline_reached}
use squad.Tools.ToolLoop.Iterate.{run_with_tools, tool_loop, start}
use squad.Tools.ToolLoop.Paired.Shortened.{IsConversation}
use squad.Tools.ToolLoop.Paired.Resumed.{run_with_tools-IsConversation}
use squad.Base.All.{All}
use squad.Tools.EditEnforcer.Deadline.{NoEdits}
use squad.Tools.ToolLoop.Worlds.{run_with_tools-read_only}
use squad.Tools.ToolLoop.Calls.{CountsCalls}
use squad.Tools.ToolLoop.Stops.{NeverEdits, ReadsNothingNew}
use squad.Tools.ToolLoop.Deadlines.{run_with_tools-stops}
use squad.Tools.Transcript.{
  save_transcript, load_transcript, Saved, written, nothing_to_save, TranscriptMessage,
}
use squad.Tools.Transcript.Replay.{turns, load_transcript-save_transcript}

-- The world is the number of calls of the model.
abbrev reader : Handler ℕ
reader ctx args p = (record { output = bytes "text"; error = none }, p)

abbrev read_call : ℕ → ToolCall
read_call n = record {
  id = "r";
  call_type = "function";
  function_call = some (record { name = "Read"; arguments = decimal n });
}

abbrev reading : Env ℕ
reading = record {
  generate = λ at ms w. (
    ok (record { content = []; tool_calls = read_call w ∷ []; generation_info = none } ∷ []),
    w + 1,
  );
  handlers = ("Read", reader) ∷ [];
  policy = record { allows_tool = λ w n. true; read_only = true; awaits_plan = λ w. false };
  meter = record {
    is_set = false;
    increment_iterations = λ w. w;
    add_tokens = λ a b w. w;
    budget_exceeded = λ w. false;
    budget_use = λ w. none;
    remaining = λ w. [];
  };
  digest = λ ps. "";
  ratio = λ raw a b. raw;
  visit = λ m. m;
  split_tool_results = true;
}

only_reader : (name : String) (h : Handler ℕ) → lookup name reading.handlers ≡ some h → reader ≡ h
unfolding lookup
only_reader name h e = elim (Bool-cases ("Read" == name)) [
  | inl t ↦ some-injective reader h (rw t at e)
  | inr t ↦ absurd (let k : none ≡ some h = rw t at e in cc)
]

reading-CountsCalls : CountsCalls reading (λ w. w)
reading-CountsCalls = record {
  model = λ at ms w. refl;
  tools = λ name h e ctx args p.
      subst (λ (g : Handler ℕ). (g ctx args p).1.world ≡ p.world) (only_reader name h e) refl;
  iterations = λ w. refl;
  tokens = λ w a b. refl;
}

ok-injective : (a b : List Choice) → ◌≡◌ {A = Result Chars (List Choice)} (ok a) (ok b) → a ≡ b
ok-injective a b e = cc

reading-NeverEdits : NeverEdits reading
unfolding squad.Tools.Messages.is_edit_call squad.Tools.Messages.call_name
    squad.Tools.Messages.edits squad.Tools.Messages.is_mutating_tool
reading-NeverEdits at ms w chs e =
    subst (λ (l : List Choice). All (λ (ch : Choice). NoEdits ch.tool_calls) l) (ok-injective _ _ e)
      ((refl, tt), tt)

reading-ReadsNothingNew : ReadsNothingNew reading
reading-ReadsNothingNew name h e ctx args p =
    subst (λ (g : Handler ℕ). size_of (g ctx args p).1.cache ≡ size_of p.cache)
      (only_reader name h e) refl

-- Two iterations before the deadline, three of grace, and the last call.
stops_after_six :
    (run_with_tools reading (bytes "s") (bytes "u") false [] (pos 40) (pos 2) 0).1.place.world ≡ 6
unfolding run_with_tools tool_loop squad.Tools.ToolLoop.Iterate.iterate
    squad.Tools.ToolLoop.Iterate.merge_choices squad.Tools.ToolLoop.exceeded
    squad.Tools.Messages.is_mutating_tool squad.Tools.ToolLoop.update_repeat bytes
    squad.Base.Chars.same_text squad.Tools.ToolLoop.Iterate.set_world
    squad.Tools.EditEnforcer.check_edit_deadline squad.Tools.EditEnforcer.new_edit_enforcer
    squad.Tools.Messages.extract_tool_names squad.Tools.LoopDetect.stuck
    squad.Tools.LoopDetect.record_step decimal squad.Tools.Dispatch.execute_tool_calls lookup
    size_of squad.Tools.ToolLoop.reset_cache_streak_on_edit squad.Tools.Messages.is_edit_call
    squad.Tools.EditEnforcer.confirm_edit squad.Tools.EditEnforcer.handle_edit_deadline
    squad.Tools.EditEnforcer.try_reenable_reads squad.Tools.EditEnforcer.check_edit_failure
    squad.Tools.Compaction.compact_messages squad.Tools.Compaction.estimate_tokens_calibrated
    squad.Tools.Messages.estimate_tokens squad.Tools.Rolling.rolling_compact
    PhaseEnforcer.observe_tools PhaseEnforcer.confirm_edit new_phase_enforcer
    squad.Tools.Messages.append_tool_call_message squad.Tools.Messages.splice_prior_messages
    squad.Tools.Messages.build_initial_messages human_text
    squad.Tools.ToolLoop.Notices.inject_phase_nudge
    squad.Tools.ToolLoop.Notices.inject_budget_warnings squad.Tools.Messages.extract_tool_results
    squad.Tools.Messages.result_of squad.Tools.Calibration.adaptive_compaction_threshold
stops_after_six = refl

has_system_prompt : is_present (bytes "s") ≡ true
unfolding is_present bytes squad.Base.Chars.utf8
has_system_prompt = refl

run_with_tools-IsConversation_example :
    IsConversation
      (run_with_tools reading
        (bytes "s")
        (bytes "u")
        true
        (human_text (bytes "before") ∷ [])
        (pos 4)
        (pos 0)
        0).1.messages
unfolding squad.Tools.ToolLoop.Paired.call_ids human_text squad.Tools.ToolLoop.Paired.response_ids
run_with_tools-IsConversation_example =
    run_with_tools-IsConversation reading (bytes "s") (bytes "u") true
      (human_text (bytes "before") ∷ []) (pos 4) (pos 0) 0 has_system_prompt (refl, (refl, tt))

-- The world is a file, which the only tool overwrites.
abbrev writer : Handler Chars
writer ctx args p =
    (record { output = bytes "updated a"; error = none }, record { cache = p.cache; world = args })

abbrev writing : Env Chars
writing = record {
  generate = λ at ms w. (
    ok (
        record {
          content = [];
          tool_calls =
              record {
                id = "e";
                call_type = "function";
                function_call = some (record { name = "Edit"; arguments = bytes "new" });
              }
              ∷ [];
          generation_info = none;
        }
        ∷ []),
    w,
  );
  handlers = ("Edit", writer) ∷ [];
  policy = record { allows_tool = λ w n. true; read_only = true; awaits_plan = λ w. false };
  meter = record {
    is_set = false;
    increment_iterations = λ w. w;
    add_tokens = λ a b w. w;
    budget_exceeded = λ w. false;
    budget_use = λ w. none;
    remaining = λ w. [];
  };
  digest = λ ps. "";
  ratio = λ raw a b. raw;
  visit = λ m. m;
  split_tool_results = false;
}

only_writes :
    (name : String) (h : Handler Chars)
    → lookup name writing.handlers ≡ some h
    → is_mutating_tool name ≡ false
    → ⊥
unfolding lookup is_mutating_tool
only_writes name h e reads = elim (Bool-cases ("Edit" == name)) [
  | inl t ↦ ground (arith, eq_iff "Edit" name, eq_iff name "Edit")
  | inr t ↦ absurd (let k : none ≡ some h = rw t at e in cc)
]

run_with_tools-read_only_example :
    (run_with_tools writing
      (bytes "s")
      (bytes "u")
      false
      []
      (pos 4)
      (pos 0)
      (bytes "old")).1.place.world
    ≡ bytes "old"
run_with_tools-read_only_example =
    run_with_tools-read_only writing (λ w. w) refl (λ at ms w. refl) (λ w. refl) (λ w a b. refl)
      (λ name h e reads ctx args p. absurd (only_writes name h e reads)) (bytes "s") (bytes "u")
      false [] (pos 4) (pos 0) (bytes "old")

run_with_tools-stops_example :
    (run_with_tools reading (bytes "s") (bytes "u") false [] (pos 40) (pos 2) 0).1.place.world
    ≤ 0 + (2 + edit_deadline_grace_period) + 1
run_with_tools-stops_example =
    run_with_tools-stops reading (λ w. w) reading-CountsCalls reading-NeverEdits
      reading-ReadsNothingNew (bytes "s") (bytes "u") false [] (pos 40) 1 0

abbrev two_reads : List (List String)
two_reads = ("Read" ∷ []) ∷ ("Grep" ∷ []) ∷ []

abbrev a_file : FileRead
a_file = record {
  resolved_path = "/w/a.go";
  display_path = "a.go";
  hash = "00";
  lines = 3;
  size = 40;
  iteration = 1;
  summary = [];
}

new_read_cache-IsCurrent : IsCurrent new_read_cache
unfolding lookup
new_read_cache-IsCurrent path entry e = absurd (let k : none ≡ some entry = e in cc)

check_read_cache_lem_example :
    (((check_read_cache a_file new_read_cache).1 ≢ none) ↔ IsServed a_file new_read_cache)
    × IsServed a_file (check_read_cache a_file new_read_cache).0
    × IsCurrent (check_read_cache a_file new_read_cache).0
    × (IsServed a_file (bump_compaction_epoch (check_read_cache a_file new_read_cache).0) → ⊥)
check_read_cache_lem_example = check_read_cache_lem a_file new_read_cache new_read_cache-IsCurrent

abbrev a_talk : List Message
a_talk =
    record { role = system; parts = text (bytes "s") ∷ [] }
    ∷ record { role = human; parts = cached (text (bytes "u")) ∷ [] }
    ∷ record { role = ai; parts = call (read_call 1) ∷ [] }
    ∷ []

-- JSON for texts of ASCII characters; it puts the replacement character in place of others.
abbrev ascii_json : Chars → Chars
ascii_json t = map (λ c. if ltb c 128 then c else 0xfffd) t

load_transcript-save_transcript_example :
    ((save_transcript ascii_json "/s/1" a_talk ≡ nothing_to_save) × (turns a_talk ≡ []))
    ⊎ ((file : List TranscriptMessage) × (save_transcript ascii_json "/s/1" a_talk ≡ written file)
        × (load_transcript (some file) ≡ turns a_talk))
unfolding squad.Tools.Transcript.is_system bytes squad.Pipeline.Handoff.decimal
load_transcript-save_transcript_example =
    load_transcript-save_transcript ascii_json "/s/1" a_talk refl (
      (λ e. absurd (let k : true ≡ false = e in cc)),
      ((λ e. ((λ n. cc), (refl, tt))), ((λ e. ((λ n. cc), ((_, refl, refl), tt))), tt)),
    )
