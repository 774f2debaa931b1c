-- ===== src/Shard/Merge/Sums.antt =====
-- The sums of runner/shard.go, and the error of a run.
use mathlib.Core.List.{flatten}
use squad.Base.{
  suc, ◌+◌, ◌≤◌, ◌≡◌, refl, ◌↔◌, inl, inr, List, [], ◌∷◌, map, Bool, true, false, none, Bool-cases,
  ltb, arith, if◌then◌else◌, length, length-append,
}
use squad.Base.All.{All}
use squad.Base.Chars.{Chars}
use squad.Shard.Merge.{
  ShardOutcome, ShardSummary, ShardedResult, is_error, add_outcome, add_outcomes, summarize,
  finish_run,
}

abbrev pub files_of : List ShardOutcome → List (List Chars)
files_of ocs = map (λ oc. oc.files) ocs

-- A sum that counts each outcome in one of three ways.
record Added (s : ShardSummary) (ocs : List ShardOutcome) (t : ShardSummary) : Type 0 where
  files : t.files ≡ s.files + length (flatten (files_of ocs))
  shards : t.shards ≡ s.shards
  ways : t.edited + t.clean + t.failed ≡ s.edited + s.clean + s.failed + length ocs
  grows : s.failed ≤ t.failed
  failed : (t.failed ≡ s.failed) ↔ All (λ oc. is_error oc.error ≡ false) ocs

record One (s : ShardSummary) (oc : ShardOutcome) (t : ShardSummary) : Type 0 where
  files : t.files ≡ s.files + length oc.files
  shards : t.shards ≡ s.shards
  ways : t.edited + t.clean + t.failed ≡ suc (s.edited + s.clean + s.failed)
  failed : t.failed ≡ (if is_error oc.error then suc s.failed else s.failed)

add_outcome-One : (s : ShardSummary) (oc : ShardOutcome) → One s oc (add_outcome s oc)
unfolding add_outcome
add_outcome-One s oc = elim (Bool-cases (is_error oc.error)) [
  | inl e ↦ rw e (record { files = refl; shards = refl; ways = omega arith; failed = rw e refl })
  | inr n ↦ elim (Bool-cases oc.edits_applied) [
    | inl e ↦
        rw (n, e) (record { files = refl; shards = refl; ways = omega arith; failed = rw n refl })
    | inr e ↦
        rw (n, e) (record { files = refl; shards = refl; ways = omega arith; failed = rw n refl })
  ]
]

Added-cons :
    (s mid t : ShardSummary) (oc : ShardOutcome) (ocs : List ShardOutcome)
    → One s oc mid
    → Added mid ocs t
    → Added s (oc ∷ ocs) t
unfolding flatten
Added-cons s mid t oc ocs one later =
    let len = length-append oc.files (flatten (files_of ocs)) in
    record {
      files = omega (arith, one.files, later.files, len);
      shards = omega (arith, one.shards, later.shards);
      ways = omega (arith, one.ways, later.ways);
      grows = (grow (is_error oc.error) one.failed).0;
      failed = (grow (is_error oc.error) one.failed).1;
    }
  where
    grow :
        (e : Bool)
        → mid.failed ≡ (if e then suc s.failed else s.failed)
        → (s.failed ≤ t.failed)
          × ((t.failed ≡ s.failed) ↔ ((e ≡ false) × All (λ o. is_error o.error ≡ false) ocs))
    grow true m = (
      omega (arith, m, later.grows),
      (λ k. absurd (omega (arith, m, later.grows, k)), λ a. absurd (let x = a.0 in cc)),
    )
    grow false m = (
      omega (arith, m, later.grows),
      (
        λ k. (refl, later.failed.0 (omega (arith, m, k))),
        λ a. let k = later.failed.1 a.1 in omega (arith, m, k),
      ),
    )

add_outcomes-Added : (s : ShardSummary) (ocs : List ShardOutcome) → Added s ocs (add_outcomes s ocs)
unfolding add_outcomes flatten
add_outcomes-Added s [] = record {
  files = omega arith;
  shards = refl;
  ways = omega arith;
  grows = omega arith;
  failed = (λ e. tt, λ a. refl);
}
add_outcomes-Added s (oc ∷ ocs) =
    Added-cons s (add_outcome s oc) (add_outcomes (add_outcome s oc) ocs) oc ocs
      (add_outcome-One s oc) (add_outcomes-Added (add_outcome s oc) ocs)

-- What a run's summary and error say of its outcomes.
pub record Summed (agent mode merge : Chars) (marshal : ShardedResult → Chars)
    (ocs : List ShardOutcome) : Type 0 where
  files : (summarize agent mode ocs).summary.files ≡ length (flatten (files_of ocs))
  shards : (summarize agent mode ocs).summary.shards ≡ length ocs
  ways :
      (summarize agent mode ocs).summary.edited
        + (summarize agent mode ocs).summary.clean
        + (summarize agent mode ocs).summary.failed
      ≡ length ocs
  pub passed :
      ((finish_run marshal agent mode merge ocs).1 ≡ none)
      ↔ All (λ oc. is_error oc.error ≡ false) ocs

pub finish_run-Summed :
    (agent mode merge : Chars) (marshal : ShardedResult → Chars) (ocs : List ShardOutcome)
    → Summed agent mode merge marshal ocs
unfolding summarize finish_run
finish_run-Summed agent mode merge marshal ocs =
    let start : ShardSummary = record {
      files = 0;
      shards = length ocs;
      edited = 0;
      clean = 0;
      failed = 0;
    } in
    let a = add_outcomes-Added start ocs in
    record {
      files = omega (arith, a.files);
      shards = a.shards;
      ways = omega (arith, a.ways);
      passed = elim (Bool-cases (ltb 0 (add_outcomes start ocs).failed)) [
        | inl p ↦ rw p (λ h. absurd (cc), λ all. absurd (let k = a.failed.1 all in ground arith))
        | inr n ↦ rw n (λ h. a.failed.0 (ground arith), λ all. refl)
      ];
    }
