-- ===== src/Pipeline/Handoff.antt =====
-- pipeline/summarize.go: how the output of a stage is shortened for the next one. A text is the list
-- of its bytes; of a callback that calls a model only the answers are known.
use squad.Base.{
  ℕ, zero, suc, ◌+◌, ◌/◌, ◌%◌, List, [], ◌∷◌, ◌++◌, Bool, true, false, Option, none, some, ltb,
  length, take, if◌then◌else◌,
}
use squad.Base.Text.{codes, ◌==◌}
use squad.Base.Chars.{Chars, same_text}
use squad.Pipeline.{Stage}

abbrev pub summarize_threshold : ℕ
summarize_threshold = 8192

abbrev pub max_handoff : ℕ
max_handoff = 4096

abbrev pub truncation_mark : Chars
truncation_mark = codes "\n...(truncated)"

abbrev default_summarize_prompt : Chars
default_summarize_prompt =
    codes
      "Summarize the following agent output for the next pipeline stage. Preserve: all findings with severity, affected files, and actionable recommendations. Remove: verbose explanations, repeated file contents, and tool call logs. Keep the summary under 2000 characters."

-- `%d`, with the digits so far; `f` bounds the digits.
unfoldable pub decimal_from : ℕ → ℕ → Chars → Chars
decimal_from zero n ds = ds
decimal_from (suc f) n ds =
    let ds' = (n % 10 + b'0') ∷ ds in
    let more = decimal_from f (n / 10) ds' in if ltb n 10 then ds' else more

unfoldable pub decimal : ℕ → Chars
unfolding decimal_from
decimal n = decimal_from (suc n) n []

unfoldable pub should_summarize : Stage → ℕ → Bool
should_summarize s output_len =
    if s.summarize == "always"
    then true
    else if s.summarize == "auto"
    then ltb summarize_threshold output_len
    else false

unfoldable pub truncate_fallback : Chars → Chars
truncate_fallback output =
    if ltb max_handoff (length output) then take max_handoff output ++ truncation_mark else output

-- `SummarizeFunc`, where there is one: `none` for an error. `W` is what the outside world keeps.
abbrev pub SummarizeFunc : Type 0 → Type 0
SummarizeFunc W = Option (Chars → Chars → W → Option Chars × W)

unfoldable pub summary_text : Chars → Option Chars → Chars
unfolding truncate_fallback
summary_text output none = truncate_fallback output
summary_text output (some summary) =
    codes "[Summarized from " ++ decimal (length output) ++ codes " bytes]\n" ++ summary

unfoldable pub summarize_output : {W : Type 0} → SummarizeFunc W → Stage → Chars → W → Chars × W
unfolding truncate_fallback summary_text
summarize_output none s output w = (truncate_fallback output, w)
summarize_output (some fn) s output w =
    let prompt =
      if s.summarize_prompt == "" then default_summarize_prompt else codes s.summarize_prompt in
    let answer = fn prompt output w in (summary_text output answer.0, answer.1)

-- The cache, by `stageName + "/" + agentName`.
abbrev pub SummaryCache : Type 0
SummaryCache = List (Chars × Chars)

unfoldable pub cache_get : Chars → SummaryCache → Option Chars
cache_get key [] = none
cache_get key ((k, v) ∷ c) = if same_text k key then some v else cache_get key c

unfoldable pub cache_set : Chars → Chars → SummaryCache → SummaryCache
cache_set key value [] = (key, value) ∷ []
cache_set key value ((k, v) ∷ c) =
    let rest = cache_set key value c in if same_text k key then (key, value) ∷ c else (k, v) ∷ rest
