-- ===== src/Shard/Pool.antt =====
-- The workers of `runSharded` in runner/shard.go, as steps. A goroutine of a shard waits for a
-- place in the channel `sem`, looks whether the run is cancelled, runs the shard, and gives the place
-- back. Metrics and log lines are left out.
pub mod Places
pub mod Rounds
pub mod Outcomes
use squad.Base.{
  ℕ, zero, suc, ◌+◌, ◌<◌, ◌≡◌, List, [], ◌∷◌, ◌++◌, map, Bool, true, false, ◌&&◌, ◌||◌, Option,
  none, some, Result, ok, err, ◌>>=◌, if◌then◌else◌, length,
}
use squad.Base.Int.{ℤ, pos, negsuc}
use squad.Base.Chars.{Chars, bytes, same_text}
use squad.Pipeline.Handoff.{decimal}
use squad.Shard.Config.{ExecutionConfig}
use squad.Shard.Single.{Reply, settle_shard}
use squad.Shard.Files.{shard_files}
use squad.Shard.Claims.{validate_shard}
use squad.Shard.Merge.{
  ShardOutcome, ShardSummary, ShardedResult, no_summary, is_error, merge_shards,
}

-- What the run does with the work-list before any shard runs; a failure names the pattern and what
-- is wrong with it.
pub data Plan : Type 0 where
  failed : Chars → Chars → Plan
  nothing_to_do : Chars → Plan
  sharded : List (List Chars) → Plan

-- An empty pattern list, or one that matches nothing, is a clean outcome.
unfoldable pub plan_shards :
    (ShardedResult → Chars)
    → Chars
    → Chars
    → ExecutionConfig
    → Result (Chars × Chars) (List Chars)
    → Plan
unfolding shard_files merge_shards
plan_shards marshal agent mode exec (err (pattern, e)) = failed pattern e
plan_shards marshal agent mode exec (ok files) = elim (shard_files files exec) [
  | [] ↦ nothing_to_do (
      merge_shards marshal
        (record { agent = agent; mode = mode; summary = no_summary; shards = [] }) exec.merge)
  | s ∷ ss ↦ sharded (s ∷ ss)
]

-- A goroutine: before it has a place; with one, before it looks at the context; while the shard runs;
-- and with its outcome.
pub data Status : Type 0 where
  waiting : Status
  placed : Status
  running : Status
  done : ShardOutcome → Status

pub record Slot : Type 0 where
  pub files : List Chars
  pub status : Status

-- `free`: the places of `sem` that are not taken. `cancelled`: `runCtx.Err()` is not nil. `interrupted`: the caller's context is cancelled.
pub record Pool : Type 0 where
  pub slots : List Slot
  pub free : ℕ
  pub cancelled : Bool
  pub interrupted : Bool

unfoldable pub is_in : Status → Bool
is_in placed = true
is_in running = true
is_in _ = false

-- How many shards have a place.
unfoldable pub in_flight : List Slot → ℕ
unfolding is_in
in_flight [] = 0
in_flight (s ∷ ss) = if is_in s.status then suc (in_flight ss) else in_flight ss

-- `make(chan struct{}, exec.MaxParallel)`, which panics below 0.
unfoldable pub capacity : ℤ → ℕ
capacity (pos n) = n
capacity (negsuc n) = 0

abbrev pub skip_error : Chars
skip_error = bytes "skipped: an earlier shard failed (on_shard_error=stop)"

unfoldable pub skipped : List Chars → ShardOutcome
skipped files = record { files = files; edits_applied = false; error = skip_error; report = [] }

-- `stop`
unfoldable pub stops : ExecutionConfig → ShardOutcome → Bool
unfolding is_error
stops exec oc = is_error oc.error && same_text exec.on_shard_error (bytes "stop")

unfoldable pub start_pool : ExecutionConfig → List (List Chars) → Pool
unfolding capacity
start_pool exec shards = record {
  slots = map (λ files. record { files = files; status = waiting }) shards;
  free = capacity exec.max_parallel;
  cancelled = false;
  interrupted = false;
}

-- `run` is what `runOneShard` comes to before its checks, for the files of a shard.
module _ (exec : ExecutionConfig) (require_actionable : Bool)
    (run : List Chars → Result Chars Reply) where
  pub data Step : Pool → Pool → Type 0 where
    -- `sem <- struct{}{}` goes on when a place is free.
    take_place :
        (before after : List Slot) (files : List Chars) (n : ℕ) (c i : Bool)
        → Step
            (record {
              slots = before ++ record { files = files; status = waiting } ∷ after;
              free = suc n;
              cancelled = c;
              interrupted = i;
            })
            (record {
              slots = before ++ record { files = files; status = placed } ∷ after;
              free = n;
              cancelled = c;
              interrupted = i;
            })
    skip :
        (before after : List Slot) (files : List Chars) (n : ℕ) (i : Bool)
        → Step
            (record {
              slots = before ++ record { files = files; status = placed } ∷ after;
              free = n;
              cancelled = true;
              interrupted = i;
            })
            (record {
              slots = before ++ record { files = files; status = done (skipped files) } ∷ after;
              free = suc n;
              cancelled = true;
              interrupted = i;
            })
    go :
        (before after : List Slot) (files : List Chars) (n : ℕ) (i : Bool)
        → Step
            (record {
              slots = before ++ record { files = files; status = placed } ∷ after;
              free = n;
              cancelled = false;
              interrupted = i;
            })
            (record {
              slots = before ++ record { files = files; status = running } ∷ after;
              free = n;
              cancelled = false;
              interrupted = i;
            })
    complete :
        (before after : List Slot) (files : List Chars) (n : ℕ) (c i : Bool)
        → Step
            (record {
              slots = before ++ record { files = files; status = running } ∷ after;
              free = n;
              cancelled = c;
              interrupted = i;
            })
            (record {
              slots =
                  before
                  ++ record {
                    files = files;
                    status = done (settle_shard require_actionable files (run files));
                  }
                    ∷ after;
              free = suc n;
              cancelled = c || stops exec (settle_shard require_actionable files (run files));
              interrupted = i;
            })
    interrupt :
        (slots : List Slot) (n : ℕ) (c : Bool)
        → Step
            (record { slots = slots; free = n; cancelled = c; interrupted = false })
            (record { slots = slots; free = n; cancelled = true; interrupted = true })

  pub data Steps (p : Pool) : ℕ → Pool → Type 0 where
    here : Steps p 0 p
    next : {n : ℕ} {q r : Pool} → Steps p n q → Step q r → Steps p (suc n) r

-- `results[idx]`, which is the zero value until the goroutine has written it.
unfoldable pub result_of : Status → ShardOutcome
result_of (done oc) = oc
result_of _ = record { files = []; edits_applied = false; error = []; report = [] }

unfoldable pub is_done : Status → Bool
is_done (done oc) = true
is_done _ = false

-- `wg.Wait()` returns when every goroutine is done.
unfoldable pub all_done : List Slot → Bool
unfolding is_done
all_done [] = true
all_done (s ∷ ss) = is_done s.status && all_done ss

unfoldable pub outcomes : List Slot → List ShardOutcome
unfolding result_of
outcomes [] = []
outcomes (s ∷ ss) = result_of s.status ∷ outcomes ss
