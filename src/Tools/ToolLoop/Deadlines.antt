-- ===== src/Tools/ToolLoop/Deadlines.antt =====
-- A run of an agent that neither edits nor reads anything new ends soon after its deadline.
use squad.Base.{Bool, inl, ℕ, zero, suc, ◌+◌, ◌≤◌, refl, List, some, arith}
use squad.Base.Int.{ℤ, pos}
use squad.Base.Chars.{Chars}
use squad.Tools.Messages.{Message}
use squad.Tools.EditEnforcer.{new_edit_enforcer, edit_deadline_grace_period}
use squad.Tools.EditEnforcer.Deadline.{Waits-pos}
use squad.Tools.ToolLoop.{Env, Loop, Turn, stop, go, Ending}
use squad.Tools.ToolLoop.Iterate.{
  iterate, tool_loop, continue, set_world, start, effective_iterations, run_with_tools,
}
use squad.Tools.ToolLoop.Keeps.{InTurn, on_response-keeps}
use squad.Tools.ToolLoop.Worlds.{Kept-Closed}
use squad.Tools.ToolLoop.Calls.{CountsCalls, kept, settle-calls}
use squad.Tools.ToolLoop.Stops.{WaitsFor, GoesOn, NeverEdits, ReadsNothingNew, on_response-waits}

module _ {W : Type 0} (env : Env W) (calls : W → ℕ) (counts : CountsCalls env calls)
    (never : NeverEdits env) (nothing_new : ReadsNothingNew env) where
  after_turn :
      (k c : ℕ) (t : Turn W) (f : Loop W → Ending × Loop W)
      → InTurn env
          (λ ms w. calls w ≤ c + 1)
          (Kept-Closed env (λ w. calls w ≤ c + 1) (kept env calls counts (c + 1)))
          t
      → GoesOn k t
      → ((s : Loop W) → WaitsFor k s → calls (f s).1.place.world ≤ calls s.place.world + k)
      → calls (continue t f).1.place.world ≤ c + suc k
  unfolding continue
  after_turn k c (stop e s) f h goes g = omega arith
  after_turn k c (go s) f h goes g = omega (arith, g s goes)

  tool_loop-stops :
      (k left i : ℕ) (s : Loop W)
      → WaitsFor k s
      → calls (tool_loop env left i s).1.place.world ≤ calls s.place.world + k
  unfolding tool_loop iterate set_world
  tool_loop-stops k zero i s h = omega arith
  tool_loop-stops zero (suc left) i s h = absurd (Waits-pos s.edit_enforcer s.grace h)
  tool_loop-stops (suc k) (suc left) i s h =
      let s' = set_world env (env.generate (some i) s.messages s.place.world).1 s in
      after_turn k (calls s.place.world) (iterate env i s) (tool_loop env left (i + 1))
        (on_response-keeps env (λ ms w. calls w ≤ calls s.place.world + 1)
          (Kept-Closed env (λ w. calls w ≤ calls s.place.world + 1)
            (kept env calls counts (calls s.place.world + 1)))
          i s' (env.generate (some i) s.messages s.place.world).0
          (omega (arith, counts.model (some i) s.messages s.place.world)))
        (on_response-waits env k i s' (env.generate (some i) s.messages s.place.world).0 nothing_new
          (never (some i) s.messages s.place.world) h)
        (tool_loop-stops k left (i + 1))

  -- If the model never calls a tool that writes, and no tool puts a new file into the read cache, a
  -- run with a deadline calls the model at most as often as the deadline says, three times more for
  -- the grace period, and once to end the run, whatever its limit on iterations.
  pub run_with_tools-stops :
      (system_prompt user_prompt : Chars) (cache_hints : Bool) (prior : List Message)
      (max_iterations : ℤ) (deadline : ℕ) (w : W)
      → calls
          (run_with_tools env system_prompt user_prompt cache_hints prior max_iterations
            (pos (suc deadline))
            w).1.place.world
        ≤ calls w + (suc deadline + edit_deadline_grace_period) + 1
  unfolding run_with_tools start new_edit_enforcer
  run_with_tools-stops sp up hints prior n d w =
      settle-calls env calls counts (effective_iterations n)
        (calls w + (suc d + edit_deadline_grace_period)) _
        (tool_loop-stops (suc d + edit_deadline_grace_period) (effective_iterations n) 0
          (start env (pos (suc d)) _ w) (refl, inl (refl, omega arith, omega arith)))
