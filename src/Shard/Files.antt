-- ===== src/Shard/Files.antt =====
-- The work-list of a sharded run and its shards, in runner/shard.go.
pub mod Sorted
pub mod Keys
pub mod Packages
pub mod Once
pub mod Found
use mathlib.Core.List.{reverse}
use squad.Base.{
  zero, suc, ◌==◌, List, [], ◌∷◌, ◌++◌, map, Bool, true, false, not, ◌&&◌, ◌||◌, Option, none, some,
  Result, ok, err, ◌>>=◌, if◌then◌else◌, length, ℕ,
}
use squad.Base.Int.{ℤ, pos, negsuc}
use squad.Base.Chars.{Chars, bytes, same_text}
use squad.Base.Multiset.{holds, chars_eq}
use squad.Skill.Stack.{split_slash, dot, dot_dot, drop_last}
use squad.Pipeline.Partitions.{chunks}
use squad.Base.Sort.{insertion_sort, join}
use squad.Shard.Config.{ExecutionConfig}

abbrev pub shard_skip_dirs : List Chars
shard_skip_dirs = map bytes (
    ".git" ∷ ".venv" ∷ "venv" ∷ "node_modules" ∷ "vendor" ∷ "__pycache__" ∷ ".tox" ∷ ".mypy_cache"
    ∷ ".pytest_cache" ∷ ".ruff_cache" ∷ "target" ∷ "build" ∷ "dist" ∷ ".claude" ∷ [])

unfoldable pub any_skipped : List Chars → Bool
any_skipped [] = false
any_skipped (s ∷ ss) = holds s shard_skip_dirs || any_skipped ss

unfoldable pub skip_path : Chars → Bool
unfolding any_skipped split_slash
skip_path rel = any_skipped (split_slash [] rel)

-- The library of globs lists the paths below the working directory that a pattern matches, and tells
-- whether it matches a path; the file system tells whether a path is a directory.
module _ (match_glob : Chars → Chars → Bool) where
  unfoldable pub matches_any : Chars → List Chars → Bool
  matches_any rel [] = false
  matches_any rel (p ∷ ps) = match_glob p rel || matches_any rel ps

  module _ (glob : Chars → Result Chars (List Chars)) (stat : Chars → Option Bool) where
    unfoldable pub is_file : Option Bool → Bool
    is_file (some false) = true
    is_file _ = false

    -- `seen` has the paths that are in `out`.
    unfoldable pub take_match : List Chars → List Chars → Chars → List Chars
    unfolding is_file
    take_match exclude out rel =
        if holds rel out || skip_path rel || matches_any rel exclude
        then out
        else if is_file (stat rel)
        then out ++ rel ∷ []
        else out

    unfoldable pub take_matches : List Chars → List Chars → List Chars → List Chars
    unfolding take_match
    take_matches exclude out [] = out
    take_matches exclude out (r ∷ rs) = take_matches exclude (take_match exclude out r) rs

    unfoldable pub glob_each :
        List Chars → List Chars → List Chars → Result (Chars × Chars) (List Chars)
    unfolding take_matches
    glob_each exclude out [] = ok out
    glob_each exclude out (p ∷ ps) = elim (glob p) [
      | ok rs ↦ glob_each exclude (take_matches exclude out rs) ps
      | err e ↦ err (p, e)
    ]

    unfoldable pub glob_shard_files : List Chars → List Chars → Result (Chars × Chars) (List Chars)
    unfolding glob_each insertion_sort
    glob_shard_files include exclude = do
      out ← glob_each exclude [] include
      ok (insertion_sort [] out)

-- `path.Clean` of a path's components; the first list holds what is kept, the last component first.
unfoldable pub clean_up : Bool → List Chars → List Chars
clean_up rooted [] = if rooted then [] else dot_dot ∷ []
clean_up rooted (c ∷ kept) = if same_text c dot_dot then dot_dot ∷ c ∷ kept else kept

unfoldable pub clean_parts : Bool → List Chars → List Chars → List Chars
unfolding clean_up
clean_parts rooted kept [] = kept
clean_parts rooted kept ([] ∷ cs) = clean_parts rooted kept cs
clean_parts rooted kept ((c ∷ s) ∷ cs) =
    let skip = clean_parts rooted kept cs in
    let up = clean_parts rooted (clean_up rooted kept) cs in
    let down = clean_parts rooted ((c ∷ s) ∷ kept) cs in
    if same_text (c ∷ s) dot then skip else if same_text (c ∷ s) dot_dot then up else down

unfoldable pub is_rooted : Chars → Bool
is_rooted [] = false
is_rooted (c ∷ s) = c == b'/'

unfoldable pub render : Bool → List Chars → Chars
unfolding join
render true parts = b'/' ∷ join (b'/' ∷ []) parts
render false [] = dot
render false (p ∷ ps) = join (b'/' ∷ []) (p ∷ ps)

-- `path.Dir`
unfoldable pub path_dir : Chars → Chars
unfolding render is_rooted clean_parts drop_last split_slash
path_dir f =
    render (is_rooted f) (reverse (clean_parts (is_rooted f) [] (drop_last (split_slash [] f))))

-- The map of the groups, and its keys in the order in which they came.
pub record Groups : Type 0 where
  pub dirs : List Chars
  pub groups : List (Chars × List Chars)

unfoldable pub group_at : Chars → List (Chars × List Chars) → List Chars
group_at d [] = []
group_at d ((k, fs) ∷ gs) = let later = group_at d gs in if same_text k d then fs else later

unfoldable pub append_to : Chars → Chars → List (Chars × List Chars) → List (Chars × List Chars)
append_to d f [] = (d, f ∷ []) ∷ []
append_to d f ((k, fs) ∷ gs) =
    let later = append_to d f gs in
    if same_text k d then (k, fs ++ f ∷ []) ∷ gs else (k, fs) ∷ later

unfoldable pub has_group : Chars → List (Chars × List Chars) → Bool
has_group d [] = false
has_group d ((k, fs) ∷ gs) = same_text k d || has_group d gs

unfoldable pub group_files : Groups → List Chars → Groups
unfolding path_dir append_to has_group
group_files g [] = g
group_files g (f ∷ fs) =
    group_files
      (record {
        dirs = if has_group (path_dir f) g.groups then g.dirs else g.dirs ++ path_dir f ∷ [];
        groups = append_to (path_dir f) f g.groups;
      })
      fs

unfoldable pub group_by_package : List Chars → List (List Chars)
unfolding group_files group_at insertion_sort
group_by_package files =
    let g = group_files (record { dirs = []; groups = [] }) files in
    map (λ d. group_at d g.groups) (insertion_sort [] g.dirs)

unfoldable pub batch_size : ℤ → ℕ
batch_size (pos zero) = 1
batch_size (pos (suc n)) = suc n
batch_size (negsuc n) = 1

-- A round of the loop takes one file at least, so that there are no more rounds than files.
unfoldable pub batch_files : List Chars → ℤ → List (List Chars)
unfolding chunks batch_size
batch_files files size = chunks (length files) (batch_size size) files

unfoldable pub shard_files : List Chars → ExecutionConfig → List (List Chars)
unfolding group_by_package batch_files
shard_files files exec =
    if same_text exec.shard_by (bytes "package")
    then group_by_package files
    else batch_files files exec.shard_batch
