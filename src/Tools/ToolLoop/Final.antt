-- ===== src/Tools/ToolLoop/Final.antt =====
-- tools/tools.go: what the call that ends a run returns.
use squad.Base.{ℕ, [], ◌∷◌, Bool, Option, none, some, if◌then◌else◌}
use squad.Base.Chars.{Chars, bytes}

abbrev pub default_phase_nudge_iters : ℕ
default_phase_nudge_iters = 3

abbrev pub max_tool_iterations : ℕ
max_tool_iterations = 100

-- What `RunWithTools` returns: a text with or without an error.
pub data RunError : Type 0 where
  over_budget : RunError
  no_usable_response : ℕ → RunError
  model_error : Chars → RunError
  model_empty : RunError

unfoldable pub merge_content : Chars → Chars → Chars
merge_content content [] = content
merge_content content (c ∷ s) = c ∷ s

abbrev pub budget_prompt : Chars
budget_prompt =
    bytes
      "Your cost budget has been exhausted. Produce your final structured output now. Do NOT request any tool calls."

abbrev pub limit_prompt : Chars
limit_prompt =
    bytes
      "You have reached the maximum number of tool-calling iterations. Produce your final structured output now based on all the data you have collected. Do NOT request any tool calls."

-- What is returned where the last call gives no text.
unfoldable pub fall_back : Bool → ℕ → Chars → Chars × Option RunError
fall_back over max_iter (c ∷ s) = (c ∷ s, if over then some over_budget else none)
fall_back over max_iter [] = ([], some (if over then over_budget else no_usable_response max_iter))

unfoldable pub final_text : Bool → ℕ → Chars → Chars → Chars × Option RunError
unfolding fall_back
final_text over max_iter last (c ∷ s) = (c ∷ s, if over then some over_budget else none)
final_text over max_iter last [] = fall_back over max_iter last
