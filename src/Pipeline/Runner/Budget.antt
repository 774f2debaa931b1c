-- ===== src/Pipeline/Runner/Budget.antt =====
-- The cost budget of pipeline/runner.go over a whole run.
use squad.Base.All.{All}
use squad.Base.{◌≤◌, List, none, ◌≡◌, length}
use squad.Base.Chars.{Chars}
use squad.Base.Dict.{Dict}
use squad.Pipeline.{Stage, Pipeline, agent_list}

-- Tiers in which no two agents run at the same time: there is one stage in each, without a partition
-- and with one agent.
abbrev pub RunsAlone : Stage → Type 0
RunsAlone s = (s.partition ≡ none) × (length (agent_list s) ≤ 1)

abbrev pub AreSequential : List (List Stage) → Type 0
AreSequential tiers = All (λ tier. (length tier ≤ 1) × All RunsAlone tier) tiers
