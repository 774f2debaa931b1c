-- ===== src/Tools/ToolLoop/Worlds.antt =====
-- What a run does to the world outside: how often it calls the model, and what it leaves alone.
use squad.Base.{
  ◌++◌, if◌then◌else◌, ℕ, zero, suc, ◌+◌, ◌≡◌, refl, ◌∙◌, String, List, [], ◌∷◌, Bool, true, false,
  Option, none, some,
}
use squad.Base.Int.{ℤ}
use squad.Base.Chars.{Chars}
use squad.Base.Dict.{lookup}
use squad.Tools.Messages.{Message, is_mutating_tool, human_text}
use squad.Tools.Dispatch.{Handler, Context, Place, denial, execute_tool_calls}
use squad.Tools.Dispatch.Denied.{execute_each-keeps, read_only-denies}
use squad.Tools.ToolLoop.{
  Env, Loop, Turn, stop, go, Ending, final_response, call_failed, empty_response, loop_detected,
  edit_deadline_reached, budget_exceeded, iteration_limit_reached,
}
use squad.Tools.ToolLoop.Iterate.{
  iterate, tool_loop, continue, set_world, start, settle, finish_tool_loop, effective_iterations,
  run_with_tools,
}
use squad.Tools.ToolLoop.Final.{budget_prompt, limit_prompt}
use squad.Tools.ToolLoop.Keeps.{Closed, InTurn, on_response-keeps, on_final-keeps}

abbrev pub final_messages : {W : Type 0} → Env W → Loop W → List Message
final_messages env s =
    s.messages
    ++ human_text (if env.meter.budget_exceeded s.place.world then budget_prompt else limit_prompt)
      ∷ []

module _ {W : Type 0} (env : Env W) where
  -- A property of the world that the tools and the metrics keep.
  pub record Kept (P : W → Type 0) : Type 0 where
    pub tools :
        (name : String) (h : Handler W)
        → lookup name env.handlers ≡ some h
        → (ctx : Context) (args : Chars) (p : Place W)
        → denial env.handlers env.policy p.world name ≡ none
        → P p.world
        → P (h ctx args p).1.world
    pub iterations : (w : W) → P w → P (env.meter.increment_iterations w)
    pub tokens : (w : W) (a b : ℕ) → P w → P (env.meter.add_tokens a b w)

  pub Kept-Closed : (P : W → Type 0) → Kept P → Closed env (λ ms w. P w)
  unfolding execute_tool_calls
  Kept-Closed P k = record {
    told = λ ms w t h. h;
    executed = λ ctx ms t c cs p h.
        execute_each-keeps env.handlers env.policy (λ q. P q.world) k.tools ctx (c ∷ cs) p h;
    shortened = λ i tc b rc ms w h. h;
    counted = λ ms w h. k.iterations w h;
    metered = λ ms w a b h. k.tokens w a b h;
  }

  module _ (P : W → Type 0) (kept : Kept P)
      (model : (at : Option ℕ) (ms : List Message) (w : W) → P w → P (env.generate at ms w).1) where
    after_turn :
        (t : Turn W) (f : Loop W → Ending × Loop W)
        → InTurn env (λ ms w. P w) (Kept-Closed P kept) t
        → ((s : Loop W) → P s.place.world → P (f s).1.place.world)
        → P (continue t f).1.place.world
    unfolding continue
    after_turn (stop e s) f h g = h
    after_turn (go s) f h g = g s h

    pub tool_loop-keeps :
        (left i : ℕ) (s : Loop W) → P s.place.world → P (tool_loop env left i s).1.place.world
    unfolding tool_loop iterate set_world
    tool_loop-keeps zero i s h = h
    tool_loop-keeps (suc left) i s h =
        after_turn (iterate env i s) (tool_loop env left (i + 1))
          (on_response-keeps env (λ ms w. P w) (Kept-Closed P kept) i
            (set_world env (env.generate (some i) s.messages s.place.world).1 s)
            (env.generate (some i) s.messages s.place.world).0
            (model (some i) s.messages s.place.world h))
          (tool_loop-keeps left (i + 1))

    finish_tool_loop-keeps :
        (n : ℕ) (s : Loop W) → P s.place.world → P (finish_tool_loop env n s).1.place.world
    unfolding finish_tool_loop set_world
    finish_tool_loop-keeps n s h =
        on_final-keeps env (λ ms w. P w) (Kept-Closed P kept) _ n
          (set_world env (env.generate none (final_messages env s) s.place.world).1 s)
          (env.generate none (final_messages env s) s.place.world).0
          (model none (final_messages env s) s.place.world h)

    settle-keeps :
        (n : ℕ) (r : Ending × Loop W) → P r.1.place.world → P (settle env n r).1.place.world
    unfolding settle
    settle-keeps n (final_response c, s) h = h
    settle-keeps n (call_failed c, s) h = h
    settle-keeps n (empty_response, s) h = h
    settle-keeps n (loop_detected, s) h = finish_tool_loop-keeps n s h
    settle-keeps n (edit_deadline_reached, s) h = finish_tool_loop-keeps n s h
    settle-keeps n (budget_exceeded, s) h = finish_tool_loop-keeps n s h
    settle-keeps n (iteration_limit_reached, s) h = finish_tool_loop-keeps n s h

    -- What the calls of the model, the metrics and the tools that are not denied keep of the world
    -- outside, a whole run keeps.
    pub run_with_tools-keeps :
        (system_prompt user_prompt : Chars) (cache_hints : Bool) (prior : List Message)
        (max_iterations edit_deadline : ℤ) (w : W)
        → P w
        → P
            (run_with_tools env system_prompt user_prompt cache_hints prior max_iterations
              edit_deadline w).1.place.world
    unfolding run_with_tools start
    run_with_tools-keeps sp up hints prior n d w h =
        settle-keeps (effective_iterations n) _
          (tool_loop-keeps (effective_iterations n) 0 (start env d _ w) h)

  -- In a run in read-only mode no tool that writes to the working tree is called: a view of the world
  -- that the model, the metrics and all other tools leave alone is the same at the end, whatever the
  -- model asks for. The tool that runs commands is one of the others.
  pub run_with_tools-read_only :
      {V : Type 0} (view : W → V)
      → env.policy.read_only ≡ true
      → ((at : Option ℕ) (ms : List Message) (w : W) → view (env.generate at ms w).1 ≡ view w)
      → ((w : W) → view (env.meter.increment_iterations w) ≡ view w)
      → ((w : W) (a b : ℕ) → view (env.meter.add_tokens a b w) ≡ view w)
      → ((name : String) (h : Handler W)
          → lookup name env.handlers ≡ some h
          → is_mutating_tool name ≡ false
          → (ctx : Context) (args : Chars) (p : Place W)
          → view (h ctx args p).1.world ≡ view p.world)
      → (system_prompt user_prompt : Chars) (cache_hints : Bool) (prior : List Message)
        (max_iterations edit_deadline : ℤ) (w : W)
      → view
          (run_with_tools env system_prompt user_prompt cache_hints prior max_iterations
            edit_deadline w).1.place.world
        ≡ view w
  run_with_tools-read_only view ro model incr add tools sp up hints prior n d w =
      run_with_tools-keeps (λ v. view v ≡ view w)
        (record {
          tools = λ name h e ctx args p open_ same.
              tools name h e (read_only-denies env.handlers env.policy p.world name ro open_) ctx
                args p
              ∙ same;
          iterations = λ v same. incr v ∙ same;
          tokens = λ v a b same. add v a b ∙ same;
        })
        (λ at ms v same. model at ms v ∙ same) sp up hints prior n d w refl
