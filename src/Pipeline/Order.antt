-- ===== src/Pipeline/Order.antt =====
-- `TopologicalOrder` of pipeline/pipeline.go: Kahn's algorithm, one tier for each round.
pub mod Count
pub mod Invariant
pub mod Layers
pub mod Rounds
pub mod Schedule
use squad.Base.{
  ℕ, zero, suc, String, List, [], ◌∷◌, ◌++◌, map, Option, none, some, length, if◌then◌else◌,
}
use squad.Base.Int.{ℤ, pos, negsuc}
use squad.Base.Text.{◌==◌}
use squad.Base.Dict.{Dict, MapOrder, lookup, insert, erase}
use squad.Pipeline.{Stage}

-- The map `inDegree`.
abbrev pub Degrees : Type 0
Degrees = Dict ℤ

-- What a Go map returns for a key that it does not hold.
abbrev pub zero_stage : Stage
zero_stage = record {
  name = "";
  agent = "";
  agents = [];
  depends_on = [];
  mode = "";
  vars = [];
  condition = "";
  pre_gates = [];
  max_cost = pos 0;
  partition = none;
  summarize = "";
  summarize_prompt = "";
  inline_config = none;
}

-- The map `stageMap`: the last stage of a name wins.
unfoldable pub stage_map : List Stage → (String → Stage) → String → Stage
stage_map [] m = m
stage_map (s ∷ ss) m = stage_map ss (λ n. if s.name == n then s else m n)

unfoldable pub in_degrees : List Stage → Degrees → Degrees
in_degrees [] m = m
in_degrees (s ∷ ss) m = in_degrees ss (insert s.name (pos (length s.depends_on)) m)

-- The map `dependents`; the inner loop appends the name of the stage once for each dependency.
unfoldable pub add_dependents : String → List String → (String → List String) → String → List String
add_dependents name [] m = m
add_dependents name (d ∷ ds) m =
    add_dependents name ds (λ n. if d == n then m n ++ name ∷ [] else m n)

unfoldable pub dependents : List Stage → (String → List String) → String → List String
unfolding add_dependents
dependents [] m = m
dependents (s ∷ ss) m = dependents ss (add_dependents s.name s.depends_on m)

unfoldable pub pred_ℤ : ℤ → ℤ
pred_ℤ (pos zero) = negsuc 0
pred_ℤ (pos (suc n)) = pos n
pred_ℤ (negsuc n) = negsuc (suc n)

-- `inDegree[dep]--`: a key that is missing counts as 0, and is added.
unfoldable pub decrement : String → Degrees → Degrees
unfolding pred_ℤ
decrement k m = insert k (pred_ℤ (elim (lookup k m) [ none ↦ pos 0 | some d ↦ d ])) m

unfoldable pub decrement_all : List String → Degrees → Degrees
unfolding decrement
decrement_all [] m = m
decrement_all (k ∷ ks) m = decrement_all ks (decrement k m)

-- The names with degree 0, in the order of the entries.
unfoldable pub zero_keys : Degrees → List String
zero_keys [] = []
zero_keys ((k, pos zero) ∷ m) = k ∷ zero_keys m
zero_keys ((k, pos (suc n)) ∷ m) = zero_keys m
zero_keys ((k, negsuc n) ∷ m) = zero_keys m

-- The loop over `ready`.
unfoldable pub release : (String → List String) → List Stage → Degrees → Degrees
unfolding decrement_all
release deps [] m = m
release deps (s ∷ ss) m = release deps ss (decrement_all (deps s.name) (erase s.name m))

-- The outer loop. `none`: the fuel ran out. `visit i` is the order of the map in round `i`.
unfoldable pub tiers_from :
    MapOrder ℤ
    → (String → Stage)
    → (String → List String)
    → ℕ
    → Degrees
    → Option (List (List Stage))
unfolding zero_keys release
tiers_from order stages deps zero m = none
tiers_from order stages deps (suc f) m = elim (map stages (zero_keys (order.visit f m))) [
  | [] ↦ some []
  | s ∷ ss ↦ elim (tiers_from order stages deps f (release deps (s ∷ ss) m)) [
    | none ↦ none
    | some rest ↦ some ((s ∷ ss) ∷ rest)
  ]
]

-- Each round schedules a stage at least, and one more round finds that none is left.
unfoldable pub topological_order : MapOrder ℤ → List Stage → Option (List (List Stage))
unfolding tiers_from stage_map in_degrees dependents
topological_order order ss =
    tiers_from order (stage_map ss (λ _. zero_stage)) (dependents ss (λ _. [])) (suc (length ss))
      (in_degrees ss [])
