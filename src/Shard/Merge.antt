-- ===== src/Shard/Merge.antt =====
-- What a sharded run returns, in runner/shard.go: the outcomes of the shards, added up and written.
pub mod Sums
use mathlib.Core.List.{flatten}
use squad.Base.{
  ℕ, zero, suc, ◌+◌, List, [], ◌∷◌, ◌++◌, Bool, true, false, Option, none, some, if◌then◌else◌,
  length, ltb,
}
use squad.Base.Chars.{Chars, bytes, same_text}
use squad.Pipeline.Handoff.{decimal}
use squad.Base.Sort.{join}

-- No error is the empty text.
pub record ShardOutcome : Type 0 where
  pub files : List Chars
  pub edits_applied : Bool
  pub error : Chars
  pub report : Chars

pub record ShardSummary : Type 0 where
  pub files : ℕ
  pub shards : ℕ
  pub edited : ℕ
  pub clean : ℕ
  pub failed : ℕ

pub record ShardedResult : Type 0 where
  pub agent : Chars
  pub mode : Chars
  pub summary : ShardSummary
  pub shards : List ShardOutcome

unfoldable pub is_error : Chars → Bool
is_error [] = false
is_error (c ∷ s) = true

unfoldable pub add_outcome : ShardSummary → ShardOutcome → ShardSummary
unfolding is_error
add_outcome s oc =
    let more = record s { files = s.files + length oc.files } in
    if is_error oc.error
    then record more { failed = suc s.failed }
    else if oc.edits_applied
    then record more { edited = suc s.edited }
    else record more { clean = suc s.clean }

unfoldable pub add_outcomes : ShardSummary → List ShardOutcome → ShardSummary
unfolding add_outcome
add_outcomes s [] = s
add_outcomes s (oc ∷ ocs) = add_outcomes (add_outcome s oc) ocs

abbrev pub no_summary : ShardSummary
no_summary = record { files = 0; shards = 0; edited = 0; clean = 0; failed = 0 }

unfoldable pub summarize : Chars → Chars → List ShardOutcome → ShardedResult
unfolding add_outcomes
summarize agent mode outcomes = record {
  agent = agent;
  mode = mode;
  summary = add_outcomes (record no_summary { shards = length outcomes }) outcomes;
  shards = outcomes;
}

unfoldable pub touched : List ShardOutcome → List Chars
touched [] = []
touched (oc ∷ ocs) =
    let later = touched ocs in if oc.edits_applied then oc.files ++ later else later

unfoldable pub touched_list : ShardedResult → Chars
unfolding touched join
touched_list res = elim (touched res.shards) [
  | [] ↦ bytes "none"
  | f ∷ fs ↦ join (bytes ", ") (f ∷ fs)
]

unfoldable pub report_sections : List ShardOutcome → Chars
unfolding join
report_sections [] = []
report_sections (oc ∷ ocs) =
    bytes "## "
    ++ join (bytes ", ") oc.files
    ++ bytes "\n\n"
    ++ oc.report
    ++ bytes "\n\n---\n\n"
    ++ report_sections ocs

unfoldable pub first_error : ℕ → List ShardOutcome → Option Chars
unfolding is_error join
first_error i [] = none
first_error i (oc ∷ ocs) =
    let later = first_error (suc i) ocs in
    if is_error oc.error
    then some (
        bytes "shard "
        ++ decimal (suc i)
        ++ bytes " ("
        ++ join (bytes ", ") oc.files
        ++ bytes "): "
        ++ oc.error)
    else later

-- `%w` of an error that may be nil.
abbrev pub wrapped : Option Chars → Chars
wrapped none = bytes "%!w(<nil>)"
wrapped (some e) = e

-- The encoder of JSON.
module _ (marshal_indent : ShardedResult → Chars) where
  unfoldable pub merge_shards : ShardedResult → Chars → Chars
  unfolding report_sections touched_list
  merge_shards res mode =
      if same_text mode (bytes "none")
      then report_sections res.shards ++ bytes "Files touched: " ++ touched_list res ++ bytes "\n"
      else marshal_indent res

  -- The end of `runSharded`: the merged text, and the error if there is one.
  unfoldable pub finish_run : Chars → Chars → Chars → List ShardOutcome → Chars × Option Chars
  unfolding summarize merge_shards first_error
  finish_run agent mode merge outcomes =
      let res = summarize agent mode outcomes in
      (
        merge_shards res merge,
        if ltb 0 res.summary.failed
            then some (
                decimal res.summary.failed
                ++ bytes " of "
                ++ decimal (length outcomes)
                ++ bytes " shards failed: "
                ++ wrapped (first_error 0 outcomes))
            else none,
      )
