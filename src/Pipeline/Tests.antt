-- ===== src/Pipeline/Tests.antt =====
-- A pipeline of two stages, and the theorems at it.
use mathlib.Core.List.{flatten}
use squad.Base.{
  ok, ℕ, String, List, [], ◌∷◌, ◌++◌, Bool, true, false, Option, none, some, ◌≡◌, refl, ◌↔◌, length,
  ◌≤◌, ◌<◌, arith, inl, inr,
}
use squad.Base.Int.{ℤ}
use squad.Base.Dict.{MapOrder, list_order}
use squad.Base.All.{All, In, Distinct}
use squad.Pipeline.{Stage, Pipeline, Gate}
use squad.Pipeline.Order.{zero_stage, topological_order}
use squad.Pipeline.Cycle.{Colors, done, exhausted, detect_cycle}
use squad.Pipeline.Cycle.Acyclic.{
  names_of, IsAcyclic, detect_cycle_sound, detect_cycle_complete, detect_cycle_total,
}
use squad.Pipeline.Order.Layers.{Layered}
use squad.Pipeline.Order.Rounds.{topological_order_layers}
use squad.Pipeline.Order.Schedule.{topological_order_once, topological_order_before}
use squad.Pipeline.Validate.{validate}
use squad.Pipeline.Validity.{IsValid, validate_sound, validate_complete}

abbrev pub lint : Stage
lint = record zero_stage { name = "lint"; agent = "linter" }

abbrev pub fix : Stage
fix = record zero_stage { name = "fix"; agents = "fixer" ∷ "tester" ∷ []; depends_on = "lint" ∷ [] }

abbrev pub two_stages : Pipeline
two_stages = record {
  name = "review";
  version = "1";
  description = "";
  stages = lint ∷ fix ∷ [];
  gates = record { after = "fix"; command = "make test"; on_failure = "continue" } ∷ [];
  output = none;
}

two_stages-is_accepted : validate two_stages ≡ ok tt
unfolding validate squad.Base.All.contains squad.Pipeline.Validate.check_stage
    squad.Pipeline.agent_list squad.Pipeline.Validate.check_partition
    squad.Pipeline.Cycle.detect_cycle
two_stages-is_accepted = refl

pub two_stages-IsValid : IsValid two_stages
two_stages-IsValid = validate_sound two_stages two_stages-is_accepted

validate_sound_example : IsValid two_stages
validate_sound_example = validate_sound two_stages two_stages-is_accepted

validate_complete_example : validate two_stages ≡ ok tt
validate_complete_example = validate_complete two_stages two_stages-IsValid

detect_cycle_sound_example : IsAcyclic two_stages.stages
detect_cycle_sound_example =
    detect_cycle_sound two_stages.stages
      (detect_cycle_complete two_stages.stages two_stages-IsValid.acyclic).0
      two_stages-IsValid.distinct
      (detect_cycle_complete two_stages.stages two_stages-IsValid.acyclic).1

detect_cycle_complete_example : (c : Colors) × (detect_cycle two_stages.stages ≡ done c)
detect_cycle_complete_example = detect_cycle_complete two_stages.stages two_stages-IsValid.acyclic

detect_cycle_total_example :
    detect_cycle (record lint { depends_on = "lint" ∷ [] } ∷ []) ≡ exhausted → ⊥
detect_cycle_total_example = detect_cycle_total (record lint { depends_on = "lint" ∷ [] } ∷ [])

abbrev pub two_tiers : List (List Stage)
two_tiers = (lint ∷ []) ∷ (fix ∷ []) ∷ []

two_tiers-are_scheduled : topological_order (list_order ℤ) two_stages.stages ≡ some two_tiers
unfolding topological_order squad.Base.Dict.insert squad.Base.Dict.erase squad.Base.Dict.lookup
two_tiers-are_scheduled = refl

topological_order_layers_example :
    (tiers : List (List Stage)) × (topological_order (list_order ℤ) two_stages.stages ≡ some tiers)
    × Layered two_stages.stages [] tiers
topological_order_layers_example =
    topological_order_layers (list_order ℤ) two_stages two_stages-IsValid

topological_order_once_example :
    Distinct (names_of (flatten two_tiers))
    × ((s : Stage) → In s (flatten two_tiers) ↔ In s two_stages.stages)
topological_order_once_example =
    topological_order_once (list_order ℤ) two_stages two_stages-IsValid two_tiers
      two_tiers-are_scheduled

topological_order_before_example : In "lint" (names_of (flatten ((lint ∷ []) ∷ [])))
topological_order_before_example =
    topological_order_before (list_order ℤ) two_stages two_stages-IsValid ((lint ∷ []) ∷ [])
      (fix ∷ []) [] two_tiers-are_scheduled fix "lint" (inl refl) (inl refl)

abbrev five : List ℕ
five = 1 ∷ 2 ∷ 3 ∷ 4 ∷ 5 ∷ []
