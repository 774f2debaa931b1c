-- ===== src/Tools/ToolLoop/Paired/Resumed.antt =====
-- The conversation at the end of a run, fresh or resumed.
use squad.Base.{
  Bool-cases, inl, inr, ℕ, ◌≡◌, refl, sym, subst, List, [], ◌∷◌, ◌++◌, Bool, true, false, Option,
  none, some, Result, ok, err,
}
use squad.Base.Int.{ℤ}
use squad.Base.Chars.{Chars}
use squad.Base.Dict.{Dict}
use squad.Tools.Messages.{
  Message, text, human, wrap, is_present, build_initial_messages, splice_prior_messages,
  before_last, last_of,
}
use squad.Tools.ToolLoop.{
  Env, Loop, Choice, InfoValue, Ending, final_response, call_failed, empty_response, loop_detected,
  edit_deadline_reached, budget_exceeded, iteration_limit_reached,
}
use squad.Tools.ToolLoop.Iterate.{
  extract_token_usage, add_usage, set_world, on_final, finish_tool_loop, settle, run_with_tools,
  start, tool_loop, effective_iterations,
}
use squad.Tools.ToolLoop.Worlds.{final_messages}
use squad.Tools.ToolLoop.Paired.{Expects, IsPaired, Expects-append, call_ids, response_ids}
use squad.Tools.ToolLoop.Paired.Shortened.{IsConversation}
use squad.Tools.ToolLoop.Paired.Answers.{tool_loop-IsConversation}

-- What a run may be resumed with: nothing, or messages with each call answered, the first of which
-- calls no tool.
abbrev pub IsResumable : List Message → Type 0
IsResumable [] = Unit
IsResumable (m ∷ ms) = (call_ids m.parts ≡ []) × IsPaired (m ∷ ms)

wrap-calls : (b : Bool) (t : Chars) → call_ids (wrap b (text t) ∷ []) ≡ []
unfolding wrap call_ids
wrap-calls true t = refl
wrap-calls false t = refl

wrap-responses : (b : Bool) (t : Chars) → response_ids (wrap b (text t) ∷ []) ≡ []
unfolding wrap response_ids
wrap-responses true t = refl
wrap-responses false t = refl

prompt : Chars → Bool → Message
prompt t b = record { role = human; parts = wrap b (text t) ∷ [] }

prompt-IsPaired : (t : Chars) (b : Bool) → IsPaired (prompt t b ∷ [])
unfolding prompt
prompt-IsPaired t b = (wrap-responses b t, subst (λ l. Expects l []) (sym (wrap-calls b t)) tt)

initial-IsConversation :
    (sp up : Chars) (hints : Bool) (prior : List Message)
    → is_present sp ≡ true
    → IsResumable prior
    → IsConversation (splice_prior_messages (build_initial_messages sp up hints) prior)
unfolding splice_prior_messages build_initial_messages before_last last_of prompt
initial-IsConversation sp up hints [] present h = rw present (
  (wrap-calls hints sp, wrap-calls hints up),
  (
    wrap-responses hints sp,
    subst (λ l. Expects l (prompt up hints ∷ [])) (sym (wrap-calls hints sp))
        (prompt-IsPaired up hints),
  ),
)
initial-IsConversation sp up hints (m ∷ prior) present h = rw present (
  (wrap-calls hints sp, h.0),
  (
    wrap-responses hints sp,
    subst (λ l. Expects l ((m ∷ prior) ++ prompt up hints ∷ [])) (sym (wrap-calls hints sp))
        (Expects-append [] (m ∷ prior) (prompt up hints ∷ []) h.1 (prompt-IsPaired up hints)),
  ),
)

module _ {W : Type 0} (env : Env W) where
  extract_token_usage-messages :
      (gi : Option (Dict InfoValue)) (s : Loop W)
      → (extract_token_usage env gi s).messages ≡ s.messages
  unfolding extract_token_usage add_usage
  extract_token_usage-messages none s = refl
  extract_token_usage-messages (some gi) s = elim (Bool-cases env.meter.is_set) [
    | inl e ↦ rw e refl
    | inr e ↦ rw e refl
  ]

  on_final-messages :
      (over : Bool) (n : ℕ) (s : Loop W) (r : Result Chars (List Choice))
      → (on_final env over n s r).1.messages ≡ s.messages
  unfolding on_final set_world
  on_final-messages over n s (err e) = refl
  on_final-messages over n s (ok []) = refl
  on_final-messages over n s (ok (ch ∷ chs)) = extract_token_usage-messages ch.generation_info _

  finish_tool_loop-messages :
      (n : ℕ) (s : Loop W) → (finish_tool_loop env n s).1.messages ≡ s.messages
  unfolding finish_tool_loop set_world
  finish_tool_loop-messages n s =
      on_final-messages _ n
        (set_world env (env.generate none (final_messages env s) s.place.world).1 s)
        (env.generate none (final_messages env s) s.place.world).0

  settle-messages : (n : ℕ) (r : Ending × Loop W) → (settle env n r).1.messages ≡ r.1.messages
  unfolding settle
  settle-messages n (final_response c, s) = refl
  settle-messages n (call_failed c, s) = refl
  settle-messages n (empty_response, s) = refl
  settle-messages n (loop_detected, s) = finish_tool_loop-messages n s
  settle-messages n (edit_deadline_reached, s) = finish_tool_loop-messages n s
  settle-messages n (budget_exceeded, s) = finish_tool_loop-messages n s
  settle-messages n (iteration_limit_reached, s) = finish_tool_loop-messages n s

  -- In a run with a system prompt, fresh or resumed with a conversation whose calls are answered and
  -- that begins with no call, the conversation at the end has each call of a tool answered by the
  -- messages that follow at once, in order and with nothing between; whatever the model and the tools
  -- do, and whatever was denied, added or shortened on the way.
  pub run_with_tools-IsConversation :
      (system_prompt user_prompt : Chars) (cache_hints : Bool) (prior : List Message)
      (max_iterations edit_deadline : ℤ) (w : W)
      → is_present system_prompt ≡ true
      → IsResumable prior
      → IsConversation
          (run_with_tools env system_prompt user_prompt cache_hints prior max_iterations
            edit_deadline w).1.messages
  unfolding run_with_tools start
  run_with_tools-IsConversation sp up hints prior n d w present h =
      let messages = splice_prior_messages (build_initial_messages sp up hints) prior in
      let s = start env d messages w in
      subst IsConversation
        (sym
          (settle-messages (effective_iterations n) (tool_loop env (effective_iterations n) 0 s)))
        (tool_loop-IsConversation env (effective_iterations n) 0 s
          (initial-IsConversation sp up hints prior present h))
