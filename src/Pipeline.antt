-- ===== src/Pipeline.antt =====
-- pipeline/pipeline.go: the configuration of a multi-agent workflow. The checks, the order of
-- execution and the proofs stand in the modules below.
pub mod Cycle
pub mod Validate
pub mod Validity
pub mod Order
pub mod Partitions
pub mod Handoff
pub mod Runner
pub mod Tests
use squad.Base.{ℕ, String, List, [], ◌∷◌, Bool, true, false, Option, none, some, if◌then◌else◌}
use squad.Base.Int.{ℤ}
use squad.Base.Text.{◌==◌}

-- An amount of US dollars. The source uses float64; amounts here are whole multiples of a fixed
-- unit, so there is no rounding and no NaN.
abbrev pub Cost : Type 0
Cost = ℤ

pub record ModelPreference : Type 0 where
  pub model : String
  pub provider : String

pub record InlineConfig : Type 0 where
  pub entry_point : String
  pub wrapper : String
  pub task : String
  pub models : List ModelPreference
  pub references : List String
  pub comments_only : Bool
  pub ascii_only : Bool

pub record Partition : Type 0 where
  pub by : String
  pub glob : String
  pub max_per_partition : ℤ

pub record PreGate : Type 0 where
  pub command : String
  pub label : String
  pub on_error : String

pub record Gate : Type 0 where
  pub after : String
  pub command : String
  pub on_failure : String

-- `MCPServers` is left out: nothing under pipeline/ reads it.
pub record Stage : Type 0 where
  pub name : String
  pub agent : String
  pub agents : List String
  pub depends_on : List String
  pub mode : String
  pub vars : List (String × String)
  pub condition : String
  pub pre_gates : List PreGate
  pub max_cost : Cost
  pub partition : Option Partition
  pub summarize : String
  pub summarize_prompt : String
  pub inline_config : Option InlineConfig

-- `output` is `Output.Format`, if there is an `Output`.
pub record Pipeline : Type 0 where
  pub name : String
  pub version : String
  pub description : String
  pub stages : List Stage
  pub gates : List Gate
  pub output : Option String

unfoldable pub is_inline : Stage → Bool
is_inline s = elim s.inline_config [ none ↦ false | some _ ↦ true ]

unfoldable pub agent_list : Stage → List String
agent_list s = if s.agent == "" then s.agents else s.agent ∷ []

unfoldable pub stage_by_name : List Stage → String → Option Stage
stage_by_name [] name = none
stage_by_name (s ∷ ss) name = if s.name == name then some s else stage_by_name ss name

unfoldable pub gates_after : List Gate → String → List Gate
gates_after [] stage = []
gates_after (g ∷ gs) stage =
    let rest = gates_after gs stage in if g.after == stage then g ∷ rest else rest
