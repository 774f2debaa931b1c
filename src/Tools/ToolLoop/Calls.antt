-- ===== src/Tools/ToolLoop/Calls.antt =====
-- How often a run calls the model.
use squad.Base.{Bool, Bool, ℕ, zero, suc, ◌+◌, ◌≤◌, ◌≡◌, String, List, Option, none, some, arith}
use squad.Base.Chars.{Chars}
use squad.Base.Dict.{lookup}
use squad.Tools.Messages.{Message}
use squad.Tools.Dispatch.{Handler, Context, Place}
use squad.Tools.ToolLoop.{
  Env, Loop, Turn, stop, go, Ending, final_response, call_failed, empty_response, loop_detected,
  edit_deadline_reached, budget_exceeded, iteration_limit_reached,
}
use squad.Tools.ToolLoop.Iterate.{iterate, tool_loop, continue, set_world, settle, finish_tool_loop}
use squad.Tools.ToolLoop.Keeps.{InTurn, on_response-keeps, on_final-keeps}
use squad.Tools.ToolLoop.Worlds.{Kept, Kept-Closed, final_messages}

-- A count of the calls of the model: the metrics and the tools leave it alone, and a call raises it
-- by one.
pub record CountsCalls {W : Type 0} (env : Env W) (calls : W → ℕ) : Type 0 where
  pub model :
      (at : Option ℕ) (ms : List Message) (w : W) → calls (env.generate at ms w).1 ≡ calls w + 1
  pub tools :
      (name : String) (h : Handler W)
      → lookup name env.handlers ≡ some h
      → (ctx : Context) (args : Chars) (p : Place W) → calls (h ctx args p).1.world ≡ calls p.world
  pub iterations : (w : W) → calls (env.meter.increment_iterations w) ≡ calls w
  pub tokens : (w : W) (a b : ℕ) → calls (env.meter.add_tokens a b w) ≡ calls w

module _ {W : Type 0} (env : Env W) (calls : W → ℕ) (counts : CountsCalls env calls) where
  open counts use {model, tools, iterations, tokens}

  pub kept : (k : ℕ) → Kept env (λ w. calls w ≤ k)
  kept k = record {
    tools = λ name h e ctx args p d le. rw (tools name h e ctx args p) le;
    iterations = λ w le. rw (iterations w) le;
    tokens = λ w a b le. rw (tokens w a b) le;
  }

  after_turn :
      (n k : ℕ) (t : Turn W) (f : Loop W → Ending × Loop W)
      → InTurn env
          (λ ms w. calls w ≤ k + 1)
          (Kept-Closed env (λ w. calls w ≤ k + 1) (kept (k + 1)))
          t
      → ((s : Loop W) → calls (f s).1.place.world ≤ calls s.place.world + n)
      → calls (continue t f).1.place.world ≤ k + suc n
  unfolding continue
  after_turn n k (stop e s) f h g = omega arith
  after_turn n k (go s) f h g = omega (arith, g s)

  pub tool_loop-calls :
      (left i : ℕ) (s : Loop W)
      → calls (tool_loop env left i s).1.place.world ≤ calls s.place.world + left
  unfolding tool_loop iterate set_world
  tool_loop-calls zero i s = omega arith
  tool_loop-calls (suc left) i s =
      after_turn left (calls s.place.world) (iterate env i s) (tool_loop env left (i + 1))
        (on_response-keeps env (λ ms w. calls w ≤ calls s.place.world + 1)
          (Kept-Closed env (λ w. calls w ≤ calls s.place.world + 1)
            (kept (calls s.place.world + 1)))
          i (set_world env (env.generate (some i) s.messages s.place.world).1 s)
          (env.generate (some i) s.messages s.place.world).0
          (omega (arith, model (some i) s.messages s.place.world)))
        (tool_loop-calls left (i + 1))

  finish_tool_loop-calls :
      (n k : ℕ) (s : Loop W)
      → calls s.place.world ≤ k
      → calls (finish_tool_loop env n s).1.place.world ≤ k + 1
  unfolding finish_tool_loop set_world
  finish_tool_loop-calls n k s h =
      on_final-keeps env (λ ms w. calls w ≤ k + 1)
        (Kept-Closed env (λ w. calls w ≤ k + 1) (kept (k + 1))) _ n
        (set_world env (env.generate none (final_messages env s) s.place.world).1 s)
        (env.generate none (final_messages env s) s.place.world).0
        (omega (arith, model none (final_messages env s) s.place.world))

  pub settle-calls :
      (n k : ℕ) (r : Ending × Loop W)
      → calls r.1.place.world ≤ k
      → calls (settle env n r).1.place.world ≤ k + 1
  unfolding settle
  settle-calls n k (final_response c, s) h = omega arith
  settle-calls n k (call_failed c, s) h = omega arith
  settle-calls n k (empty_response, s) h = omega arith
  settle-calls n k (loop_detected, s) h = finish_tool_loop-calls n k s h
  settle-calls n k (edit_deadline_reached, s) h = finish_tool_loop-calls n k s h
  settle-calls n k (budget_exceeded, s) h = finish_tool_loop-calls n k s h
  settle-calls n k (iteration_limit_reached, s) h = finish_tool_loop-calls n k s h
