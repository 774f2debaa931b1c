-- ===== src/Tools/PhaseEnforcer/Nudges.antt =====
-- When an agent that only reads is nudged, and when its reads are blocked.
use squad.Base.All.{All}
use squad.Base.{◌+◌, ◌*◌, ◌≤◌, ◌<◌, ◌≡◌, String, List, [], ◌∷◌, false, Option}
use squad.Tools.PhaseEnforcer.{PhaseEnforcer, observe_tools, some_edit_tool}

-- The nudges keep the pace of the iterations: one for each `nudge_after` of them.
abbrev pub IsPaced : PhaseEnforcer → Type 0
IsPaced pe =
    (0 < pe.nudge_after)
    × (pe.nudge_count * pe.nudge_after ≤ pe.read_only_iters)
    × (pe.read_only_iters < pe.nudge_count * pe.nudge_after + pe.nudge_after)

-- The iterations, each with the names of the tools that are called.
unfoldable pub observe_all : List (List String) → Option PhaseEnforcer → Option PhaseEnforcer
observe_all [] pe = pe
observe_all (names ∷ rest) pe = observe_all rest (observe_tools pe names).0

abbrev pub NoEditTools : List (List String) → Type 0
NoEditTools batches = All (λ (names : List String). some_edit_tool names ≡ false) batches
