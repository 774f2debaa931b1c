-- ===== src/Tools/ToolLoop/Paired/Answers.antt =====
-- The tool loop answers each call of a tool at once, in order: what the providers of models demand
-- of a conversation.
use squad.Tools.ToolLoop.Iterate.{continue, tool_loop, iterate, set_world}
use squad.Tools.ToolLoop.Paired.Shortened.{IsConversation, shortened-IsConversation}
use squad.Tools.ToolLoop.Keeps.{Closed, InTurn, on_response-keeps}
use squad.Tools.ToolLoop.{Env, Loop, Turn, stop, go, Ending}
use squad.Base.{
  ◌+◌, ℕ, if◌then◌else◌, Bool-cases, inl, inr, zero, suc, ◌≡◌, ◌≢◌, refl, sym, ap, ◌∙◌, subst,
  String, List, [], ◌∷◌, ◌++◌, map, Bool, true, false, Option, none, some,
}
use mathlib.Core.List.{append-nil, append_assoc}
use squad.Base.Chars.{Chars}
use squad.Base.Dict.{Dict, lookup}
use squad.Tools.LoopDetect.{ToolCall, FunctionCall}
use squad.Tools.Messages.{
  Message, text, ai, append_tool_call_message, is_present, Part, call_parts, ToolResponse,
}
use squad.Tools.Dispatch.{
  execute_tool_calls, Handler, Policy, Context, Place, denial, run_handler, call_handler,
  call_function, execute_tool_call, execute_each, responses, one_each, result_messages,
}
use squad.Tools.ToolLoop.Paired.{
  human_text-IsPaired, Expects-append, IsHeaded-append, IsPaired, call_ids, response_ids, Expects,
}

abbrev ids_of : List ToolCall → List String
ids_of cs = map (λ (c : ToolCall). c.id) cs

abbrev answered_ids : List ToolResponse → List String
answered_ids rs = map (λ (r : ToolResponse). r.tool_call_id) rs

module _ {W : Type 0} (handlers : Dict (Handler W)) (policy : Policy W) (ctx : Context) where
  run_handler-id :
      (id : String) (f : FunctionCall) (h : Handler W) (p : Place W) (o : Option Chars)
      → (run_handler handlers policy ctx id f h p o).0.tool_call_id ≡ id
  unfolding run_handler
  run_handler-id id f h p (some t) = refl
  run_handler-id id f h p none = refl

  call_handler-id :
      (id : String) (f : FunctionCall) (h : Option (Handler W)) (p : Place W)
      → (call_handler handlers policy ctx id f h p).0.tool_call_id ≡ id
  unfolding call_handler
  call_handler-id id f none p = refl
  call_handler-id id f (some h) p = run_handler-id id f h p (denial handlers policy p.world f.name)

  call_function-id :
      (id : String) (f : Option FunctionCall) (p : Place W)
      → (call_function handlers policy ctx id f p).0.tool_call_id ≡ id
  unfolding call_function
  call_function-id id none p = refl
  call_function-id id (some f) p = call_handler-id id f (lookup f.name handlers) p

  ids-execute_each :
      (cs : List ToolCall) (p : Place W)
      → answered_ids (execute_each handlers policy ctx cs p).0 ≡ ids_of cs
  unfolding execute_each execute_tool_call
  ids-execute_each [] p = refl
  ids-execute_each (c ∷ cs) p = rw (call_function-id c.id c.function_call p, ids-execute_each cs _)

call_ids-call_parts :
    (cs : List ToolCall) (ps : List Part)
    → call_ids (call_parts cs ++ ps) ≡ ids_of cs ++ call_ids ps
unfolding call_ids call_parts
call_ids-call_parts [] ps = refl
call_ids-call_parts (c ∷ cs) ps = ap (λ l. c.id ∷ l) (call_ids-call_parts cs ps)

response_ids-call_parts :
    (cs : List ToolCall) (ps : List Part) → response_ids (call_parts cs ++ ps) ≡ response_ids ps
unfolding response_ids call_parts
response_ids-call_parts [] ps = refl
response_ids-call_parts (c ∷ cs) ps = response_ids-call_parts cs ps

response_ids-responses :
    (rs : List ToolResponse)
    → (response_ids (responses rs) ≡ answered_ids rs) × (call_ids (responses rs) ≡ [])
unfolding response_ids call_ids responses
response_ids-responses [] = (refl, refl)
response_ids-responses (r ∷ rs) =
    let (same, no_calls) = response_ids-responses rs in
    (ap (λ l. r.tool_call_id ∷ l) same, no_calls)

cons-ne-nil : (i : String) (is : List String) → ◌≢◌ {A = List String} (i ∷ is) []
cons-ne-nil i is e = cc

one_each-Expects : (rs : List ToolResponse) → Expects (answered_ids rs) (one_each rs)
unfolding one_each response_ids call_ids
one_each-Expects [] = tt
one_each-Expects (r ∷ rs) =
    (answered_ids rs, cons-ne-nil r.tool_call_id [], refl, refl, one_each-Expects rs)

result_messages-Expects :
    (split : Bool) (r : ToolResponse) (rs : List ToolResponse)
    → Expects (answered_ids (r ∷ rs)) (result_messages split (r ∷ rs))
unfolding result_messages
result_messages-Expects true r rs = one_each-Expects (r ∷ rs)
result_messages-Expects false r rs =
    let (same, no_calls) = response_ids-responses (r ∷ rs) in
    (
      [],
      (λ e. cons-ne-nil r.tool_call_id (answered_ids rs) (sym same ∙ e)),
      append-nil _ ∙ same,
      no_calls,
      tt,
    )

-- Results with the ids of the calls, of which there is one at least.
results-Expects :
    (split : Bool) (rs : List ToolResponse) (i : String) (is : List String)
    → answered_ids rs ≡ i ∷ is
    → Expects (i ∷ is) (result_messages split rs)
results-Expects split [] i is e = absurd (cons-ne-nil i is (sym e))
results-Expects split (r ∷ rs) i is e =
    subst (λ l. Expects l (result_messages split (r ∷ rs))) e (result_messages-Expects split r rs)

text_part : Chars → List Part
text_part t = if is_present t then text t ∷ [] else []

text_part_ids : (t : Chars) → (call_ids (text_part t) ≡ []) × (response_ids (text_part t) ≡ [])
unfolding text_part call_ids response_ids
text_part_ids t = elim (Bool-cases (is_present t)) [
  | inl e ↦ rw e (refl, refl)
  | inr e ↦ rw e (refl, refl)
]

-- The message with the calls, and their results.
block-IsPaired :
    (split : Bool) (t : Chars) (c : ToolCall) (cs : List ToolCall) (rs : List ToolResponse)
    → answered_ids rs ≡ ids_of (c ∷ cs)
    → IsPaired (
        record { role = ai; parts = call_parts (c ∷ cs) ++ text_part t } ∷ result_messages split rs)
block-IsPaired split t c cs rs e = (
  response_ids-call_parts (c ∷ cs) (text_part t) ∙ (text_part_ids t).1,
  subst (λ l. Expects l (result_messages split rs)) (sym calls)
      (results-Expects split rs c.id (ids_of cs) e),
)
  where
    calls : call_ids (call_parts (c ∷ cs) ++ text_part t) ≡ c.id ∷ ids_of cs
    calls =
        call_ids-call_parts (c ∷ cs) (text_part t)
        ∙ ap (λ l. ids_of (c ∷ cs) ++ l) (text_part_ids t).0
        ∙ append-nil _

executed-IsConversation :
    {W : Type 0} (handlers : Dict (Handler W)) (policy : Policy W) (split : Bool) (ctx : Context)
    (ms : List Message) (t : Chars) (c : ToolCall) (cs : List ToolCall) (p : Place W)
    → IsConversation ms
    → IsConversation
        (execute_tool_calls handlers policy ctx
          (append_tool_call_message ms t (c ∷ cs))
          (c ∷ cs)
          split
          p).0
unfolding execute_tool_calls append_tool_call_message text_part
executed-IsConversation handlers policy split ctx ms t c cs p (h, q) =
    let rs = (execute_each handlers policy ctx (c ∷ cs) p).0 in
    let block : List Message =
      record { role = ai; parts = call_parts (c ∷ cs) ++ text_part t } ∷ [] in
    subst IsConversation (sym (append_assoc ms block (result_messages split rs))) (
      IsHeaded-append ms (block ++ result_messages split rs) h,
      Expects-append [] ms (block ++ result_messages split rs) q
          (block-IsPaired split t c cs rs (ids-execute_each handlers policy ctx (c ∷ cs) p)),
    )

module _ {W : Type 0} (env : Env W) where
  closed : Closed env (λ ms w. IsConversation ms)
  closed = record {
    told =
        λ ms w t (h, p). (IsHeaded-append ms _ h, Expects-append [] ms _ p (human_text-IsPaired t));
    executed = λ ctx ms t c cs p h.
        executed-IsConversation env.handlers env.policy env.split_tool_results ctx ms t c cs p h;
    shortened = λ i tc b rc ms w h. shortened-IsConversation env.ratio env.visit i tc b rc ms h;
    counted = λ ms w h. h;
    metered = λ ms w a b h. h;
  }

  after_turn :
      (t : Turn W) (f : Loop W → Ending × Loop W)
      → InTurn env (λ ms w. IsConversation ms) closed t
      → ((s : Loop W) → IsConversation s.messages → IsConversation (f s).1.messages)
      → IsConversation (continue t f).1.messages
  unfolding continue
  after_turn (stop e s) f h k = h
  after_turn (go s) f h k = k s h

  -- If the conversation that the tool loop is given begins with two messages that call no tool, and
  -- each call in it is answered by the messages that follow at once, in order and with nothing
  -- between, then the same holds of the conversation at every end of the loop, whatever the model and
  -- the tools do, and whatever was denied, added or shortened on the way.
  pub tool_loop-IsConversation :
      (left i : ℕ) (s : Loop W)
      → IsConversation s.messages
      → IsConversation (tool_loop env left i s).1.messages
  unfolding tool_loop iterate set_world
  tool_loop-IsConversation zero i s h = h
  tool_loop-IsConversation (suc left) i s h =
      after_turn (iterate env i s) (tool_loop env left (i + 1))
        (on_response-keeps env (λ ms w. IsConversation ms) closed i
          (set_world env (env.generate (some i) s.messages s.place.world).1 s)
          (env.generate (some i) s.messages s.place.world).0 h)
        (tool_loop-IsConversation left (i + 1))
