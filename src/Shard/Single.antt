-- ===== src/Shard/Single.antt =====
-- One shard of runner/shard.go: its prompt, its run, and its outcome.
use squad.Base.{
  ℕ, suc, List, [], ◌∷◌, ◌++◌, Bool, false, Option, none, some, Result, ok, err, ◌>>=◌,
  if◌then◌else◌,
}
use squad.Base.Chars.{Chars, bytes}
use squad.Pipeline.Handoff.{decimal}
use squad.Shard.Claims.{validate_shard}
use squad.Shard.Merge.{ShardOutcome}

unfoldable pub assignment_lines : List Chars → Chars
assignment_lines [] = []
assignment_lines (f ∷ fs) = bytes "- " ++ f ++ bytes "\n" ++ assignment_lines fs

-- `pipeline.FormatPartitionPrompt`
unfoldable pub partition_prompt : List Chars → ℕ → ℕ → Chars
unfolding assignment_lines
partition_prompt files part total =
    bytes "## Partition Assignment ("
    ++ decimal part
    ++ bytes " of "
    ++ decimal total
    ++ bytes ")\n\n"
    ++ bytes "You are reviewing a subset of the codebase. Focus ONLY on these files:\n\n"
    ++ assignment_lines files
    ++ bytes "\nDo NOT read or analyze files outside this list.\n"
    ++ bytes "Other partitions are handling the remaining files in parallel.\n"

-- What the single-agent loop returns, and what the shard's own edit tracker has seen.
pub record Reply : Type 0 where
  pub response : Chars
  pub run_error : Option Chars
  pub edits_applied : Bool

unfoldable pub text_of : Result Chars Unit → Chars
text_of (ok _) = []
text_of (err e) = e

unfoldable pub shard_error : Bool → Reply → Chars
unfolding validate_shard text_of
shard_error require_actionable r = elim r.run_error [
  | some e ↦ e
  | none ↦ if require_actionable then text_of (validate_shard r.response r.edits_applied) else []
]

unfoldable pub settle_shard : Bool → List Chars → Result Chars Reply → ShardOutcome
unfolding shard_error
settle_shard require_actionable files (err e) = record {
  files = files;
  edits_applied = false;
  error = e;
  report = [];
}
settle_shard require_actionable files (ok r) = record {
  files = files;
  edits_applied = r.edits_applied;
  error = shard_error require_actionable r;
  report = r.response;
}

-- The bundle is built from the prompt, and the model is invoked with it.
unfoldable pub run_one_shard :
    {B : Type 0}
    → (Chars → Result Chars B)
    → (B → Reply)
    → Bool
    → List Chars
    → ℕ
    → ℕ
    → Chars
    → ShardOutcome
unfolding settle_shard partition_prompt
run_one_shard build invoke require_actionable files idx total prompt =
    settle_shard require_actionable files (
      build (partition_prompt files (suc idx) total ++ bytes "\n\n" ++ prompt) >>= λ b.
      ok (invoke b))
