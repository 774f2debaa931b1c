-- ===== src/Pipeline/Partitions.antt =====
-- pipeline/partition.go: the files of a stage, split into one group for each agent.
pub mod Groups
use mathlib.Core.List.{flatten}
use squad.Base.{
  ℕ, zero, suc, ◌+◌, ◌-◌, String, List, [], ◌∷◌, ◌++◌, Bool, true, false, not, Option, none, some,
  Result, ok, err, ◌>>=◌, refuse_if, length, take, drop, ltb, if◌then◌else◌,
}
use squad.Base.Int.{ℤ, pos, negsuc}
use squad.Base.Text.{◌==◌}
use squad.Base.All.{contains}
use squad.Pipeline.{Partition}

abbrev pub default_max_per_partition : ℕ
default_max_per_partition = 25

abbrev pub max_partitions : ℕ
max_partitions = 10

abbrev pub default_skip_dirs : List String
default_skip_dirs =
    ".venv" ∷ "venv" ∷ "__pycache__" ∷ ".tox" ∷ "node_modules" ∷ ".git" ∷ ".mypy_cache"
    ∷ ".pytest_cache" ∷ ".ruff_cache" ∷ ".eggs" ∷ "target" ∷ "build" ∷ "dist" ∷ "vendor" ∷ []

-- What `filepath.WalkDir` meets under a directory, in its order. `unreadable` stands for an entry
-- at which it reports an error.
mutual
  pub data Node : Type 0 where
    file : String → Node
    dir : String → Nodes → Node
    unreadable : Node

  pub data Nodes : Type 0 where
    end : Nodes
    entry : Node → Nodes → Nodes

-- A path relative to the working directory, by its components.
abbrev pub RelPath : Type 0
RelPath = List String

pub data PartitionError : Type 0 where
  glob_required invalid_glob walk_failed : PartitionError

-- `matched` is `doublestar.Match` at the pattern. The callback returns `SkipDir` at a directory of
-- the skip set, and an error ends the walk.
unfoldable mutual
  unfolding contains

  pub collect_node : (RelPath → Bool) → RelPath → Node → Result PartitionError (List RelPath)
  collect_node matched at (file name) =
      let rel = at ++ name ∷ [] in ok (if matched rel then rel ∷ [] else [])
  collect_node matched at (dir name children) =
      let inside = collect_nodes matched (at ++ name ∷ []) children in
      if contains default_skip_dirs name then ok [] else inside
  collect_node matched at unreadable = err walk_failed

  pub collect_nodes : (RelPath → Bool) → RelPath → Nodes → Result PartitionError (List RelPath)
  collect_nodes matched at end = ok []
  collect_nodes matched at (entry n ns) = do
    here ← collect_node matched at n
    rest ← collect_nodes matched at ns
    ok (here ++ rest)

-- The walk starts at the working directory itself, whose name is tested too.
unfoldable pub collect_matches :
    (RelPath → Bool) → String → Nodes → Result PartitionError (List RelPath)
unfolding collect_nodes contains
collect_matches matched base children =
    if contains default_skip_dirs base then ok [] else collect_nodes matched [] children

module _ {ℓ} {A : Type ℓ} where
  -- The loop that cuts groups of `max_per`; a round takes one file at least.
  unfoldable pub chunks : ℕ → ℕ → List A → List (List A)
  chunks zero max_per xs = []
  chunks (suc f) max_per [] = []
  chunks (suc f) max_per (x ∷ xs) = take max_per (x ∷ xs) ∷ chunks f max_per (drop max_per (x ∷ xs))

  -- The groups behind the cap are appended to the last group that stays. In the source they lie
  -- behind it in the same array, so that `append` writes each file to its own place.
  unfoldable pub merge_extra : List (List A) → List (List A)
  unfolding flatten
  merge_extra groups =
      if ltb max_partitions (length groups)
      then take (max_partitions - 1) groups ++ flatten (drop (max_partitions - 1) groups) ∷ []
      else groups

  unfoldable pub split_into_partitions : List A → ℕ → List (List A)
  unfolding chunks merge_extra
  split_into_partitions matches max_per = merge_extra (chunks (length matches) max_per matches)

unfoldable pub effective_max : ℤ → ℕ
effective_max (pos zero) = default_max_per_partition
effective_max (pos (suc n)) = suc n
effective_max (negsuc n) = default_max_per_partition

-- `valid` is `doublestar.ValidatePattern`.
unfoldable pub expand_partition :
    (String → Bool)
    → (String → RelPath → Bool)
    → String
    → Nodes
    → Partition
    → Result PartitionError (List (List RelPath))
unfolding collect_matches split_into_partitions effective_max
expand_partition valid matched base children p =
    if p.glob == ""
    then err glob_required
    else if valid p.glob
    then (do
      matches ← collect_matches (matched p.glob) base children
      ok (split_into_partitions matches (effective_max p.max_per_partition)))
    else err invalid_glob

unfoldable pub count_files : List (List RelPath) → ℕ
count_files [] = 0
count_files (g ∷ gs) = length g + count_files gs
