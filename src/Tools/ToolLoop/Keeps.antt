-- ===== src/Tools/ToolLoop/Keeps.antt =====
-- What the tool loop keeps: a relation between the messages and the world that each part of an
-- iteration keeps holds at the end.
use squad.Base.{
  ◌||◌, ℕ, inl, inr, List, [], ◌∷◌, ◌++◌, Bool, true, false, Option, none, some, Result, ok, err,
  Bool-cases, if◌then◌else◌, ltb,
}
use squad.Base.Chars.{Chars}
use squad.Base.Dict.{Dict}
use squad.Tools.LoopDetect.{ToolCall, stuck}
use squad.Tools.Messages.{Message, human_text, append_tool_call_message, extract_tool_names}
use squad.Tools.EditEnforcer.{EditEnforcer, GraceState, handle_edit_deadline, check_edit_deadline}
use squad.Tools.PhaseEnforcer.{PhaseEnforcer, observe_tools}
use squad.Tools.ReadCache.{size_of, ReadCache}
use squad.Tools.Compaction.{compact_messages}
use squad.Tools.Calibration.{BudgetUse, TokenCalibration}
use squad.Tools.Rolling.{rolling_compact}
use squad.Tools.Dispatch.{Place, Context, execute_tool_calls}
use squad.Tools.ToolLoop.{
  output_keys, input_keys, extract_token_value, Env, Loop, Turn, stop, go, Choice, InfoValue,
  update_repeat, exceeded,
}
use squad.Tools.ToolLoop.Notices.{
  budget_warning_thresholds, with_nudge, inject_phase_nudge, warn_each, inject_budget_warnings,
  budget_warning_message,
}
use squad.Tools.ToolLoop.Iterate.{
  with_results, set_world, add_usage, extract_token_usage, merge_choices, after_execution,
  track_post_execution, execute, after_deadline, on_deadline, on_calls, on_merged, on_response,
  on_final,
}

-- What the parts of an iteration keep: the notices that are added, the calls that are carried out, the
-- shortening of the conversation, and the counters.
pub record Closed {W : Type 0} (env : Env W) (Inv : List Message → W → Type 0) : Type 0 where
  pub told : (ms : List Message) (w : W) (t : Chars) → Inv ms w → Inv (ms ++ human_text t ∷ []) w
  pub executed :
      (ctx : Context) (ms : List Message) (t : Chars) (c : ToolCall) (cs : List ToolCall)
      (p : Place W)
      → Inv ms p.world
      → Inv
          (execute_tool_calls env.handlers env.policy ctx
            (append_tool_call_message ms t (c ∷ cs))
            (c ∷ cs)
            env.split_tool_results
            p).0
          (execute_tool_calls env.handlers env.policy ctx
            (append_tool_call_message ms t (c ∷ cs))
            (c ∷ cs)
            env.split_tool_results
            p).1.world
  pub shortened :
      (i : ℕ) (tc : TokenCalibration) (b : Option BudgetUse) (rc : ReadCache) (ms : List Message)
      (w : W)
      → Inv ms w
      → Inv (compact_messages env.ratio env.visit tc b rc (rolling_compact ms i)).0 w
  pub counted : (ms : List Message) (w : W) → Inv ms w → Inv ms (env.meter.increment_iterations w)
  pub metered :
      (ms : List Message) (w : W) (a b : ℕ) → Inv ms w → Inv ms (env.meter.add_tokens a b w)

module _ {W : Type 0} (env : Env W) (Inv : List Message → W → Type 0)
    (closed : Closed env Inv) where
  open closed use {told, executed, shortened, counted, metered}

  abbrev pub Holds : Loop W → Type 0
  Holds s = Inv s.messages s.place.world

  abbrev pub InTurn : Turn W → Type 0
  InTurn (stop e t) = Holds t
  InTurn (go t) = Holds t

  with_nudge-keeps :
      (nudge : Option Chars) (ms : List Message) (w : W) → Inv ms w → Inv (with_nudge nudge ms) w
  unfolding with_nudge
  with_nudge-keeps none ms w h = h
  with_nudge-keeps (some t) ms w h = told ms w t h

  inject_phase_nudge-keeps :
      (b : Bool) (pe : Option PhaseEnforcer) (cs : List ToolCall) (ms : List Message) (w : W)
      → Inv ms w
      → Inv (inject_phase_nudge b pe (extract_tool_names cs) ms).1 w
  unfolding inject_phase_nudge
  inject_phase_nudge-keeps true pe cs ms w h = h
  inject_phase_nudge-keeps false pe cs ms w h =
      with_nudge-keeps (observe_tools pe (extract_tool_names cs)).1 ms w h

  warn_each-keeps :
      (b : BudgetUse) (r : Chars) (ts : List ℕ) (ws : List Bool) (ms : List Message) (w : W)
      → Inv ms w
      → Inv (warn_each b r ts ws ms).1 w
  unfolding warn_each
  warn_each-keeps b r [] ws ms w h = h
  warn_each-keeps b r (t ∷ ts) [] ms w h = h
  warn_each-keeps b r (t ∷ ts) (true ∷ ws) ms w h = warn_each-keeps b r ts ws ms w h
  warn_each-keeps b r (t ∷ ts) (false ∷ ws) ms w h = elim (Bool-cases (b.used t)) [
    | inl e ↦ rw e (
        warn_each-keeps b r ts ws (ms ++ human_text (budget_warning_message t r) ∷ []) w
          (told ms w (budget_warning_message t r) h))
    | inr e ↦ rw e (warn_each-keeps b r ts ws ms w h)
  ]

  inject_budget_warnings-keeps :
      (b : Option BudgetUse) (r : Chars) (ws : List Bool) (ms : List Message) (w : W)
      → Inv ms w
      → Inv (inject_budget_warnings b r ws ms).1 w
  unfolding inject_budget_warnings
  inject_budget_warnings-keeps none r ws ms w h = h
  inject_budget_warnings-keeps (some b) r ws ms w h = elim (Bool-cases b.limited) [
    | inl e ↦ rw e (warn_each-keeps b r budget_warning_thresholds ws ms w h)
    | inr e ↦ rw e h
  ]

  after_execution-keeps :
      (i n : ℕ) (cs : List ToolCall) (s : Loop W) → Holds s → InTurn (after_execution env i n cs s)
  unfolding after_execution
  after_execution-keeps i n cs s h = elim (Bool-cases (stuck s.detector)) [
    | inl e ↦ rw e h
    | inr e ↦ rw e (elim (Bool-cases (env.meter.budget_exceeded s.place.world)) [
      | inl o ↦ rw o h
      | inr o ↦ rw o (
          shortened i s.calibration (env.meter.budget_use s.place.world) s.place.cache _ _ (
            inject_budget_warnings-keeps _ _ s.budget_warned _ s.place.world (
              inject_phase_nudge-keeps (ltb n (size_of s.place.cache)) s.phase_enforcer cs
                s.messages s.place.world h)))
    ])
  ]

  execute-keeps :
      (i : ℕ) (t : Chars) (c : ToolCall) (cs : List ToolCall) (s : Loop W)
      → Holds s
      → InTurn (execute env i t (c ∷ cs) s)
  unfolding execute with_results track_post_execution
  execute-keeps i t c cs s h =
      after_execution-keeps i _ (c ∷ cs) _ (executed _ s.messages t c cs s.place h)

  after_deadline-keeps :
      (i : ℕ) (t : Chars) (c : ToolCall) (cs : List ToolCall) (s : Loop W)
      (r : GraceState × Bool × List Message)
      → Inv r.2 s.place.world
      → InTurn (after_deadline env i t (c ∷ cs) s r)
  unfolding after_deadline
  after_deadline-keeps i t c cs s (g, true, ms) h = h
  after_deadline-keeps i t c cs s (g, false, ms) h = execute-keeps i t c cs _ h

  handle_edit_deadline-keeps :
      (gs : GraceState) (ms : List Message) (w : W)
      → Inv ms w
      → Inv (handle_edit_deadline gs ms).2 w
  unfolding handle_edit_deadline
  handle_edit_deadline-keeps gs ms w h = elim (Bool-cases gs.reached) [
    | inl e ↦ rw e h
    | inr e ↦ rw e (told ms w _ h)
  ]

  on_deadline-keeps :
      (i : ℕ) (t : Chars) (c : ToolCall) (cs : List ToolCall) (s : Loop W)
      (r : Option EditEnforcer × Bool × Bool)
      → Holds s
      → InTurn (on_deadline env i t (c ∷ cs) s r)
  unfolding on_deadline
  on_deadline-keeps i t c cs s (e, true, m) h =
      after_deadline-keeps i t c cs (record s { edit_enforcer = e; deadline_marked = m })
        (handle_edit_deadline s.grace s.messages)
        (handle_edit_deadline-keeps s.grace s.messages s.place.world h)
  on_deadline-keeps i t c cs s (e, false, m) h = execute-keeps i t c cs _ h

  on_calls-keeps :
      (i : ℕ) (t : Chars) (c : ToolCall) (cs : List ToolCall) (s : Loop W)
      → Holds s
      → InTurn (on_calls env i t (c ∷ cs) s)
  unfolding on_calls
  on_calls-keeps i t c cs s h = elim (Bool-cases (exceeded (update_repeat (c ∷ cs) s.repeat))) [
    | inl e ↦ rw e h
    | inr e ↦ rw e (
        on_deadline-keeps i t c cs (record s { repeat = update_repeat (c ∷ cs) s.repeat })
          (check_edit_deadline s.edit_enforcer (c ∷ cs) s.deadline_marked) h)
  ]

  on_merged-keeps :
      (i : ℕ) (r : Chars × List ToolCall × Loop W) → Holds r.2 → InTurn (on_merged env i r)
  unfolding on_merged
  on_merged-keeps i (t, [], s) h = h
  on_merged-keeps i (t, c ∷ cs, s) h = on_calls-keeps i t c cs _ h

  extract_token_usage-keeps :
      (gi : Option (Dict InfoValue)) (s : Loop W) → Holds s → Holds (extract_token_usage env gi s)
  unfolding extract_token_usage add_usage
  extract_token_usage-keeps none s h = h
  extract_token_usage-keeps (some gi) s h = elim (Bool-cases env.meter.is_set) [
    | inl e ↦ rw e (
        counts
          (ltb 0 (extract_token_value gi input_keys) || ltb 0 (extract_token_value gi output_keys))
          (extract_token_value gi input_keys) (extract_token_value gi output_keys))
    | inr e ↦ rw e h
  ]
    where
      counts :
          (a : Bool) (m n : ℕ)
          → Inv s.messages (if a then env.meter.add_tokens m n s.place.world else s.place.world)
      counts true m n = metered s.messages s.place.world m n h
      counts false m n = h

  merge_choices-keeps :
      (chs : List Choice) (t : Chars) (cs : List ToolCall) (s : Loop W)
      → Holds s
      → Holds (merge_choices env chs t cs s).2
  unfolding merge_choices
  merge_choices-keeps [] t cs s h = h
  merge_choices-keeps (ch ∷ chs) t cs s h =
      merge_choices-keeps chs _ _ _ (extract_token_usage-keeps ch.generation_info s h)

  pub on_response-keeps :
      (i : ℕ) (s : Loop W) (r : Result Chars (List Choice))
      → Holds s
      → InTurn (on_response env i s r)
  unfolding on_response set_world
  on_response-keeps i s (err e) h = h
  on_response-keeps i s (ok []) h = h
  on_response-keeps i s (ok (ch ∷ chs)) h =
      on_merged-keeps i
        (merge_choices env (ch ∷ chs) [] []
          (set_world env (env.meter.increment_iterations s.place.world) s))
        (merge_choices-keeps (ch ∷ chs) [] [] _ (counted s.messages s.place.world h))

  pub on_final-keeps :
      (over : Bool) (n : ℕ) (s : Loop W) (r : Result Chars (List Choice))
      → Holds s
      → Holds (on_final env over n s r).1
  unfolding on_final set_world
  on_final-keeps over n s (err e) h = h
  on_final-keeps over n s (ok []) h = h
  on_final-keeps over n s (ok (ch ∷ chs)) h =
      extract_token_usage-keeps ch.generation_info _ (counted s.messages s.place.world h)
