-- ===== src/Shard/Tests.antt =====
-- The theorems on sharded runs, at a small work-list.
use mathlib.Core.List.{flatten}
use squad.Base.{
  ◌+◌, ◌≤◌, ◌≡◌, refl, ◌↔◌, List, [], ◌∷◌, map, Bool, true, false, Option, none, some, Result, ok,
}
use squad.Base.Int.{pos}
use squad.Base.All.{In, Distinct}
use squad.Base.Chars.{Chars, bytes, same_text, has_prefix, trim_space}
use squad.Base.Multiset.{count, chars_eq, holds}
use squad.Shard.Config.{ExecutionConfig}
use squad.Shard.Files.{
  skip_path, matches_any, glob_shard_files, shard_files, group_by_package, path_dir,
}
use squad.Shard.Covers.{IsInScope, RanClean, run_sharded-covers}
use squad.Shard.Files.Sorted.{IsSorted}
use squad.Shard.Files.Packages.{in_dir, IsDirOf, group_by_package_lem}
use squad.Shard.Claims.{claims_specific_files_touched}
use squad.Shard.Merge.{ShardOutcome, finish_run, ShardedResult}
use squad.Shard.Merge.Sums.{files_of}
use squad.Shard.Pool.{
  Slot, stops, waiting, placed, done, Pool, Steps, here, next, take_place, go, complete, start_pool,
  in_flight, capacity, all_done, outcomes,
}
use squad.Shard.Single.{Reply, settle_shard}
use squad.Shard.Pool.Places.{in_flight-bound}
use squad.Shard.Pool.Outcomes.{Outcomes}

abbrev a_x : Chars
a_x = bytes "a/x.go"

abbrev a_y : Chars
a_y = bytes "a/y.go"

abbrev b_z : Chars
b_z = bytes "b/z.go"

abbrev in_vendor : Chars
in_vendor = bytes "vendor/v.go"

abbrev no_match : Chars → Chars → Bool
no_match p f = false

abbrev listed : Chars → Result Chars (List Chars)
listed p = ok (b_z ∷ a_y ∷ in_vendor ∷ a_x ∷ a_y ∷ [])

abbrev all_files : Chars → Option Bool
all_files f = some false

abbrev go_files : List Chars
go_files = bytes "**/*.go" ∷ []

abbrev work_list : List Chars
work_list = a_x ∷ a_y ∷ b_z ∷ []

work_list_is_found : glob_shard_files no_match listed all_files go_files [] ≡ ok work_list
unfolding glob_shard_files holds skip_path bytes same_text matches_any
work_list_is_found = refl

abbrev by_package : ExecutionConfig
by_package = record {
  shard_by = bytes "package";
  glob = go_files;
  exclude = [];
  shard_batch = pos 1;
  merge = bytes "json";
  max_parallel = pos 1;
  on_shard_error = bytes "continue";
}

packages_run : shard_files work_list by_package ≡ (a_x ∷ a_y ∷ []) ∷ (b_z ∷ []) ∷ []
unfolding shard_files same_text bytes
packages_run = refl

dirs_run :
    map path_dir (bytes "/x" ∷ bytes "x.go" ∷ bytes "a/./b/../c" ∷ [])
    ≡ bytes "/" ∷ bytes "." ∷ bytes "a" ∷ []
unfolding path_dir bytes same_text
dirs_run = refl

group_by_package_lem_example :
    (ds : List Chars) × IsSorted ds
    × Distinct ds
    × ((d : Chars) → In d ds ↔ IsDirOf work_list d)
    × (group_by_package work_list ≡ map (λ d. in_dir d work_list) ds)
group_by_package_lem_example = group_by_package_lem work_list

claims_run :
    map claims_specific_files_touched
      (bytes "Files touched: none" ∷ bytes "Files touched:\n- a/x.go" ∷ bytes "no report" ∷ [])
    ≡ false ∷ true ∷ false ∷ []
unfolding claims_specific_files_touched bytes same_text has_prefix trim_space
claims_run = refl

-- A label in bold face is not followed to the next line.
bold_label_run : claims_specific_files_touched (bytes "**Files touched:**\n- a/x.go") ≡ false
unfolding claims_specific_files_touched bytes same_text has_prefix trim_space
bold_label_run = refl

abbrev two_shards : List (List Chars)
two_shards = (a_x ∷ a_y ∷ []) ∷ (b_z ∷ []) ∷ []

abbrev edited : Result Chars Reply
edited =
    ok (record { response = bytes "Files touched: a/x.go"; run_error = none; edits_applied = true })

abbrev all_edit : List Chars → Result Chars Reply
all_edit files = edited

abbrev one_shard : List (List Chars)
one_shard = (a_x ∷ []) ∷ []

abbrev first_placed : Pool
first_placed = record {
  slots =
      record { files = a_x ∷ a_y ∷ []; status = placed }
      ∷ record { files = b_z ∷ []; status = waiting }
      ∷ [];
  free = 0;
  cancelled = false;
  interrupted = false;
}

first_step : Steps by_package true all_edit (start_pool by_package two_shards) 1 first_placed
unfolding start_pool in_flight capacity
first_step = next here (
    take_place [] (record { files = b_z ∷ []; status = waiting } ∷ []) (a_x ∷ a_y ∷ []) 0 false
      false)

in_flight-bound_example :
    (in_flight first_placed.slots ≤ capacity by_package.max_parallel)
    × (in_flight first_placed.slots + first_placed.free ≡ capacity by_package.max_parallel)
in_flight-bound_example =
    in_flight-bound by_package true all_edit two_shards 1 first_placed first_step

abbrev ended_pool : Pool
ended_pool = record {
  slots = record { files = a_x ∷ []; status = done (settle_shard true (a_x ∷ []) edited) } ∷ [];
  free = 1;
  cancelled = false;
  interrupted = false;
}

abbrev no_json : ShardedResult → Chars
no_json r = []

-- The run of the work-list by package, one shard after the other.
abbrev both_ended : Pool
both_ended = record {
  slots =
      record { files = a_x ∷ a_y ∷ []; status = done (settle_shard true (a_x ∷ a_y ∷ []) edited) }
      ∷ record { files = b_z ∷ []; status = done (settle_shard true (b_z ∷ []) edited) }
      ∷ [];
  free = 1;
  cancelled = false;
  interrupted = false;
}

covering_run :
    Steps by_package true all_edit
      (start_pool by_package (shard_files work_list by_package))
      6
      both_ended
unfolding start_pool shard_files same_text bytes in_flight capacity settle_shard stops
covering_run =
    let first : List Slot =
      record { files = a_x ∷ a_y ∷ []; status = done (settle_shard true (a_x ∷ a_y ∷ []) edited) }
      ∷ [] in
    let second : List Slot = record { files = b_z ∷ []; status = waiting } ∷ [] in
    next
      (next
        (next
          (next
            (next (next here (take_place [] second (a_x ∷ a_y ∷ []) 0 false false))
              (go [] second (a_x ∷ a_y ∷ []) 0 false))
            (complete [] second (a_x ∷ a_y ∷ []) 0 false false))
          (take_place first [] (b_z ∷ []) 0 false false))
        (go first [] (b_z ∷ []) 0 false))
      (complete first [] (b_z ∷ []) 0 false false)

both_done : all_done both_ended.slots ≡ true
unfolding all_done
both_done = refl

run_sharded-covers_example :
    (In a_y (flatten (files_of (outcomes both_ended.slots)))
      ↔ IsInScope by_package true all_edit no_match listed all_files a_y)
    × (count a_y (flatten (files_of (outcomes both_ended.slots))) ≤ 1)
    × ((finish_run no_json
            (bytes "degpt")
            (bytes "edit")
            by_package.merge
            (outcomes both_ended.slots)).1
          ≡ none
        → IsInScope by_package true all_edit no_match listed all_files a_y
        → (oc : ShardOutcome) × In oc (outcomes both_ended.slots)
          × In a_y oc.files
          × RanClean by_package true all_edit oc)
run_sharded-covers_example =
    run_sharded-covers by_package true all_edit no_match listed all_files (bytes "degpt")
      (bytes "edit") no_json work_list 6 both_ended work_list_is_found covering_run both_done a_y
