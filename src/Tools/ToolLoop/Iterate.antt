-- ===== src/Tools/ToolLoop/Iterate.antt =====
-- tools/tools.go: one iteration of the tool loop, the loop, and the call that ends a run.
use squad.Tools.ToolLoop.Final.{
  model_error, model_empty, limit_prompt, budget_prompt, fall_back, max_tool_iterations, RunError,
  final_text, default_phase_nudge_iters, merge_content,
}
use squad.Base.{
  ℕ, zero, suc, ◌+◌, ltb, List, [], ◌∷◌, ◌++◌, Bool, true, false, ◌||◌, Option, none, some, Result,
  ok, err, if◌then◌else◌,
}
use squad.Base.Int.{ℤ, pos, negsuc}
use squad.Base.Chars.{Chars}
use squad.Base.Dict.{Dict}
use squad.Tools.LoopDetect.{ToolCall, record_step, stuck}
use squad.Tools.Messages.{
  Message, append_tool_call_message, extract_tool_results, result_of, human_text,
  extract_tool_names, build_initial_messages, splice_prior_messages,
}
use squad.Tools.EditEnforcer
use squad.Tools.EditEnforcer.{
  EditEnforcer, GraceState, new_edit_enforcer, no_grace, check_edit_deadline, handle_edit_deadline,
  try_reenable_reads, check_edit_failure,
}
use squad.Tools.PhaseEnforcer
use squad.Tools.PhaseEnforcer.{new_phase_enforcer}
use squad.Tools.ReadCache.{new_read_cache, size_of}
use squad.Tools.Compaction.{compact_messages}
use squad.Tools.Calibration.{no_calibration, record_sample}
use squad.Tools.Rolling.{rolling_compact}
use squad.Tools.Dispatch.{Context, execute_tool_calls}
use squad.Tools.ToolLoop.{
  no_repeats, update_repeat, exceeded, Choice, InfoValue, extract_token_value, input_keys,
  output_keys, Env, Loop, Ending, final_response, call_failed, empty_response, loop_detected,
  edit_deadline_reached, budget_exceeded, iteration_limit_reached, Turn, stop, go,
  should_block_read_tools, reset_cache_streak_on_edit,
}
use squad.Tools.ToolLoop.Notices.{inject_budget_warnings, inject_phase_nudge}

unfoldable pub effective_iterations : ℤ → ℕ
effective_iterations (negsuc n) = max_tool_iterations
effective_iterations (pos zero) = max_tool_iterations
effective_iterations (pos (suc n)) = suc n

unfoldable pub continue : {W : Type 0} → Turn W → (Loop W → Ending × Loop W) → Ending × Loop W
continue (stop e s) more = (e, s)
continue (go s) more = more s

module _ {W : Type 0} (env : Env W) where
  open env use {generate, handlers, policy, meter, digest, ratio, visit, split_tool_results}

  unfoldable pub set_world : W → Loop W → Loop W
  set_world w s = record s { place = record { cache = s.place.cache; world = w } }

  -- `extractTokenUsage`: the metrics count what a choice reports, and the calibration takes its input
  -- as both the estimate and the truth.
  unfoldable pub add_usage : ℕ → ℕ → Loop W → Loop W
  add_usage input output s = record s {
    place = record {
      cache = s.place.cache;
      world =
          if ltb 0 input || ltb 0 output
          then meter.add_tokens input output s.place.world
          else s.place.world;
    };
    calibration = record_sample input input s.calibration;
  }

  unfoldable pub extract_token_usage : Option (Dict InfoValue) → Loop W → Loop W
  unfolding add_usage
  extract_token_usage none s = s
  extract_token_usage (some gi) s =
      if meter.is_set
      then add_usage (extract_token_value gi input_keys) (extract_token_value gi output_keys) s
      else s

  -- The last text that is not empty, all calls, and the usage of each choice counted.
  unfoldable pub merge_choices :
      List Choice → Chars → List ToolCall → Loop W → Chars × List ToolCall × Loop W
  unfolding extract_token_usage merge_content
  merge_choices [] content calls s = (content, calls, s)
  merge_choices (ch ∷ chs) content calls s =
      merge_choices chs (merge_content content ch.content) (calls ++ ch.tool_calls)
        (extract_token_usage ch.generation_info s)

  unfoldable pub after_execution : ℕ → ℕ → List ToolCall → Loop W → Turn W
  unfolding inject_phase_nudge inject_budget_warnings
  after_execution i size_before calls s =
      let new_files = ltb size_before (size_of s.place.cache) in
      let nudged =
        inject_phase_nudge new_files s.phase_enforcer (extract_tool_names calls) s.messages in
      let w = s.place.world in
      let warned =
        inject_budget_warnings (meter.budget_use w) (meter.remaining w) s.budget_warned nudged.1 in
      let short =
        compact_messages ratio visit s.calibration (meter.budget_use w) s.place.cache
          (rolling_compact warned.1 i) in
      if stuck s.detector
      then stop loop_detected s
      else if meter.budget_exceeded w
      then stop budget_exceeded s
      else go (record s {
        phase_enforcer = nudged.0;
        budget_warned = warned.0;
        messages = short.0;
        place = record { cache = short.1; world = w };
      })

  -- `trackPostExecution`, up to the test of the loop detector.
  unfoldable pub track_post_execution : ℕ → List ToolCall → Loop W → Loop W
  track_post_execution size_before calls s =
      let results = extract_tool_results s.messages in
      let edit = EditEnforcer.confirm_edit calls results s.edit_enforcer in
      let phase = PhaseEnforcer.confirm_edit calls results s.phase_enforcer in
      let cache = reset_cache_streak_on_edit calls results s.place.cache in
      let new_files = ltb size_before (size_of cache) in
      record s {
        edit_enforcer = if new_files then EditEnforcer.reset_read_progress edit else edit;
        phase_enforcer = if new_files then PhaseEnforcer.reset_read_progress phase else phase;
        grace = try_reenable_reads edit (check_edit_failure calls results s.grace);
        detector = record_step digest calls (result_of results) s.detector;
        place = record { cache = cache; world = s.place.world };
      }

  unfoldable pub context_of : ℕ → Loop W → Context
  context_of i s = record {
    reads_blocked = should_block_read_tools s.grace s.edit_enforcer s.phase_enforcer;
    iteration = i;
  }

  -- The message with the calls, and the results of the tools.
  unfoldable pub with_results : ℕ → Chars → List ToolCall → Loop W → Loop W
  unfolding context_of
  with_results i content calls s =
      let done =
        execute_tool_calls handlers policy (context_of i s)
          (append_tool_call_message s.messages content calls) calls split_tool_results s.place in
      record s { messages = done.0; place = done.1 }

  unfoldable pub execute : ℕ → Chars → List ToolCall → Loop W → Turn W
  unfolding with_results track_post_execution after_execution
  execute i content calls s =
      let size_before = size_of s.place.cache in
      after_execution i size_before calls
        (track_post_execution size_before calls (with_results i content calls s))

  unfoldable pub after_deadline :
      ℕ → Chars → List ToolCall → Loop W → GraceState × Bool × List Message → Turn W
  unfolding execute
  after_deadline i content calls s (grace, true, messages) =
      stop edit_deadline_reached (record s { grace = grace; messages = messages })
  after_deadline i content calls s (grace, false, messages) =
      execute i content calls (record s { grace = grace; messages = messages })

  unfoldable pub on_deadline :
      ℕ → Chars → List ToolCall → Loop W → Option EditEnforcer × Bool × Bool → Turn W
  unfolding after_deadline
  on_deadline i content calls s (enforcer, reached, marked) =
      let s' = record s { edit_enforcer = enforcer; deadline_marked = marked } in
      if reached
      then after_deadline i content calls s' (handle_edit_deadline s.grace s.messages)
      else execute i content calls s'

  unfoldable pub on_calls : ℕ → Chars → List ToolCall → Loop W → Turn W
  unfolding on_deadline
  on_calls i content calls s =
      let s' = record s { repeat = update_repeat calls s.repeat } in
      if exceeded (update_repeat calls s.repeat)
      then stop iteration_limit_reached s'
      else on_deadline i content calls s'
          (check_edit_deadline s.edit_enforcer calls s.deadline_marked)

  unfoldable pub on_merged : ℕ → Chars × List ToolCall × Loop W → Turn W
  unfolding on_calls
  on_merged i (content, [], s) =
      stop (final_response content)
        (record s { last_content = merge_content s.last_content content })
  on_merged i (content, call ∷ calls, s) =
      on_calls i content (call ∷ calls)
        (record s { last_content = merge_content s.last_content content })

  unfoldable pub on_response : ℕ → Loop W → Result Chars (List Choice) → Turn W
  unfolding on_merged
  on_response i s (err e) = stop (call_failed e) s
  on_response i s (ok []) = stop empty_response s
  on_response i s (ok (ch ∷ chs)) =
      on_merged i
        (merge_choices (ch ∷ chs) [] [] (set_world (meter.increment_iterations s.place.world) s))

  -- One iteration.
  unfoldable pub iterate : ℕ → Loop W → Turn W
  unfolding on_response
  iterate i s =
      let (response, w) = generate (some i) s.messages s.place.world in
      on_response i (set_world w s) response

  -- The loop from iteration `i` on, with `left` iterations left.
  unfoldable pub tool_loop : ℕ → ℕ → Loop W → Ending × Loop W
  unfolding continue
  tool_loop zero i s = (iteration_limit_reached, s)
  tool_loop (suc left) i s = continue (iterate i s) (tool_loop left (i + 1))

  -- The variables before the first iteration.
  unfoldable pub start : ℤ → List Message → W → Loop W
  start edit_deadline messages w = record {
    last_content = [];
    messages = messages;
    repeat = no_repeats;
    detector = record { signatures = [] };
    edit_enforcer = new_edit_enforcer edit_deadline;
    phase_enforcer = new_phase_enforcer (pos default_phase_nudge_iters);
    grace = no_grace;
    deadline_marked = false;
    budget_warned = false ∷ false ∷ false ∷ [];
    calibration = no_calibration;
    place = record { cache = new_read_cache; world = w };
  }

  unfoldable pub on_final :
      Bool → ℕ → Loop W → Result Chars (List Choice) → (Chars × Option RunError) × Loop W
  unfolding final_text fall_back
  on_final over max_iter s (err e) = (fall_back over max_iter s.last_content, s)
  on_final over max_iter s (ok []) = (fall_back over max_iter s.last_content, s)
  on_final over max_iter s (ok (ch ∷ chs)) = (
    final_text over max_iter s.last_content ch.content,
    extract_token_usage ch.generation_info (set_world (meter.increment_iterations s.place.world) s),
  )

  -- The call without tools that ends a run whose loop was stopped.
  unfoldable pub finish_tool_loop : ℕ → Loop W → (Chars × Option RunError) × Loop W
  unfolding on_final human_text
  finish_tool_loop max_iter s =
      let over = meter.budget_exceeded s.place.world in
      let (response, w) =
        generate none (s.messages ++ human_text (if over then budget_prompt else limit_prompt) ∷ [])
          s.place.world in
      on_final over max_iter (set_world w s) response

  unfoldable pub settle : ℕ → Ending × Loop W → (Chars × Option RunError) × Loop W
  unfolding finish_tool_loop
  settle max_iter (final_response content, s) = ((content, none), s)
  settle max_iter (call_failed e, s) = ((s.last_content, some (model_error e)), s)
  settle max_iter (empty_response, s) = ((s.last_content, some model_empty), s)
  settle max_iter (loop_detected, s) = finish_tool_loop max_iter s
  settle max_iter (edit_deadline_reached, s) = finish_tool_loop max_iter s
  settle max_iter (budget_exceeded, s) = finish_tool_loop max_iter s
  settle max_iter (iteration_limit_reached, s) = finish_tool_loop max_iter s

  -- The result, and the variables at the end, whose messages are what a resumed run replays.
  unfoldable pub run_with_tools :
      Chars → Chars → Bool → List Message → ℤ → ℤ → W → (Chars × Option RunError) × Loop W
  unfolding settle effective_iterations start
  run_with_tools system_prompt user_prompt use_cache_control prior max_iterations edit_deadline w =
      let n = effective_iterations max_iterations in
      settle n (
        tool_loop n 0 (
          start edit_deadline
            (splice_prior_messages
              (build_initial_messages system_prompt user_prompt use_cache_control) prior)
            w))
