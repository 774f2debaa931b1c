-- ===== src/Pipeline/Cycle.antt =====
-- `detectCycle` of pipeline/pipeline.go: a depth-first walk with three colours.
pub mod Frame
pub mod Sound
mod Complete
mod Fuel
pub mod Acyclic
use squad.Base.{ℕ, zero, suc, ◌+◌, String, List, [], ◌∷◌, ◌≡◌, length, if◌then◌else◌}
use squad.Base.Text.{◌==◌}
use squad.Pipeline.{Stage}

pub data Color : Type 0 where
  white gray black : Color

-- The map `color`: a name that it does not hold is white.
abbrev pub Colors : Type 0
Colors = String → Color

abbrev pub paint : String → Color → Colors → Colors
paint name v c m = if name == m then v else c m

-- The map `adj`: a later stage of the same name would win, and an unknown name has no edges.
abbrev pub Edges : Type 0
Edges = String → List String

unfoldable pub adjacency : List Stage → Edges → Edges
adjacency [] adj = adj
adjacency (s ∷ ss) adj = adjacency ss (λ m. if s.name == m then s.depends_on else adj m)

-- The result of a walk. `exhausted` is the model's own: the fuel was too little.
pub data Walk : Type 0 where
  done : Colors → Walk
  cycle : String → String → Walk
  exhausted : Walk

-- The loop over the dependencies of `name`; `go` is the recursive call.
unfoldable pub visit_deps : (Colors → String → Walk) → String → List String → Colors → Walk
visit_deps go name [] c = done (paint name black c)
visit_deps go name (d ∷ ds) c = elim (c d) [
  | gray ↦ cycle name d
  | white ↦ elim (go c d) [
    | done c' ↦ visit_deps go name ds c'
    | cycle a b ↦ cycle a b
    | exhausted ↦ exhausted
  ]
  | black ↦ visit_deps go name ds c
]

unfoldable pub visit : Edges → ℕ → Colors → String → Walk
unfolding visit_deps
visit adj zero c name = exhausted
visit adj (suc f) c name = visit_deps (visit adj f) name (adj name) (paint name gray c)

unfoldable pub visit_all : Edges → ℕ → List Stage → Colors → Walk
visit_all adj f [] c = done c
visit_all adj f (s ∷ ss) c = elim (c s.name) [
  | white ↦ elim (visit adj f c s.name) [
    | done c' ↦ visit_all adj f ss c'
    | cycle a b ↦ cycle a b
    | exhausted ↦ exhausted
  ]
  | gray ↦ visit_all adj f ss c
  | black ↦ visit_all adj f ss c
]

-- Each nested call paints one more stage, so one round for each stage is enough, and one to start.
unfoldable pub detect_cycle : List Stage → Walk
unfolding visit visit_all adjacency
detect_cycle ss = visit_all (adjacency ss (λ _. [])) (suc (length ss)) ss (λ _. white)
