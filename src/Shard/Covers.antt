-- ===== src/Shard/Covers.antt =====
-- A sharded run of runner/shard.go from its patterns to its outcomes.
use mathlib.Core.List.{flatten}
use squad.Base.{
  ℕ, ◌≤◌, ◌≡◌, refl, sym, ap, ◌∙◌, ◌↔◌, inl, inr, List, [], ◌∷◌, Bool, true, false, Option, none,
  Result, ok, err, arith,
}
use squad.Base.All.{All, In, In-append}
use squad.Base.Chars.{Chars, bytes}
use squad.Base.Multiset.{count, chars_eq}
use squad.Base.Occurs.{count_iff, Distinct_count}
use squad.Shard.Config.{ExecutionConfig}
use squad.Shard.Files.{glob_shard_files, shard_files}
use squad.Shard.Files.Found.{IsListed, IsWanted, glob_shard_files_lem}
use squad.Shard.Files.Once.{shard_files-count}
use squad.Shard.Merge.{ShardOutcome, ShardedResult, is_error, finish_run}
use squad.Shard.Merge.Sums.{files_of}
use squad.Shard.Single.{Reply, settle_shard}
use squad.Shard.Single.{Reply}
use squad.Base.{Result}
use squad.Shard.Pool.{Pool, Steps, start_pool, all_done, outcomes, skipped}
use squad.Shard.Pool.Outcomes.{MaySkip, IsOutcome, Outcomes, run_sharded-outcomes}

module _ (exec : ExecutionConfig) (require_actionable : Bool)
    (run : List Chars → Result Chars Reply) where
  -- A shard that ran, with the outcome that its run came to, which is no error.
  abbrev pub RanClean : ShardOutcome → Type 0
  RanClean oc =
      (is_error oc.error ≡ false) × (oc ≡ settle_shard require_actionable oc.files (run oc.files))

  settle_shard-files :
      (files : List Chars) (reply : Result Chars Reply)
      → (settle_shard require_actionable files reply).files ≡ files
  unfolding settle_shard
  settle_shard-files files (ok r) = refl
  settle_shard-files files (err e) = refl

  IsOutcome-files :
      (May : Type 0) (files : List Chars) (oc : ShardOutcome)
      → IsOutcome exec require_actionable run May files oc
      → oc.files ≡ files
  unfolding settle_shard skipped
  IsOutcome-files May files oc (inl e) = ap (λ o. o.files) e ∙ settle_shard-files files (run files)
  IsOutcome-files May files oc (inr (m, e)) = ap (λ o. o.files) e

  Outcomes-files :
      (May : Type 0) (shards : List (List Chars)) (ocs : List ShardOutcome)
      → Outcomes exec require_actionable run May shards ocs
      → files_of ocs ≡ shards
  Outcomes-files May [] [] h = refl
  Outcomes-files May [] (oc ∷ ocs) h = absurd h
  Outcomes-files May (files ∷ shards) [] h = absurd h
  Outcomes-files May (files ∷ shards) (oc ∷ ocs) h =
      λ i. IsOutcome-files May files oc h.0 i ∷ Outcomes-files May shards ocs h.1 i

  IsOutcome-RanClean :
      (May : Type 0) (files : List Chars) (oc : ShardOutcome)
      → IsOutcome exec require_actionable run May files oc
      → is_error oc.error ≡ false
      → RanClean oc
  unfolding skipped is_error bytes
  IsOutcome-RanClean May files oc (inl e) clean = (
    clean,
    e
        ∙ ap (λ fs. settle_shard require_actionable fs (run fs))
            (sym (IsOutcome-files May files oc (inl e))),
  )
  IsOutcome-RanClean May files oc (inr (m, e)) clean =
      let k : true ≡ false = rw e at clean in absurd (cc)

  -- A file of the outcomes is a file of one that ran clean, if all are clean.
  find_clean :
      (May : Type 0) (f : Chars) (shards : List (List Chars)) (ocs : List ShardOutcome)
      → Outcomes exec require_actionable run May shards ocs
      → All (λ oc. is_error oc.error ≡ false) ocs
      → In f (flatten (files_of ocs))
      → (oc : ShardOutcome) × In oc ocs × In f oc.files × RanClean oc
  unfolding flatten
  find_clean May f [] [] h clean i = absurd i
  find_clean May f [] (oc ∷ ocs) h clean i = absurd h
  find_clean May f (files ∷ shards) [] h clean i = absurd h
  find_clean May f (files ∷ shards) (oc ∷ ocs) h clean i =
      elim (In-append f oc.files (flatten (files_of ocs)) i) [
        | inl j ↦ (oc, inl refl, j, IsOutcome-RanClean May files oc h.0 clean.0)
        | inr j ↦
            let (oc', k, in_files, ran) = find_clean May f shards ocs h.1 clean.1 j in
            (oc', inr k, in_files, ran)
      ]

  module _ (match_glob : Chars → Chars → Bool) (glob : Chars → Result Chars (List Chars))
      (stat : Chars → Option Bool) where
    -- A file that the patterns of the manifest list and that nothing rules out.
    abbrev pub IsInScope : Chars → Type 0
    IsInScope f =
        IsListed match_glob glob stat exec.exclude exec.glob f
        × IsWanted match_glob glob stat exec.exclude f

    -- When a sharded run has ended, in whatever order its shards ran, the files of its outcomes are
    -- exactly the files in scope, each in one outcome and once. If the run returns no error, each
    -- file in scope was given to a shard that ran, none was skipped, and whose outcome is no error.
    pub run_sharded-covers :
        (agent mode : Chars) (marshal : ShardedResult → Chars) (files : List Chars) (n : ℕ)
        (p : Pool)
        → glob_shard_files match_glob glob stat exec.glob exec.exclude ≡ ok files
        → Steps exec require_actionable run (start_pool exec (shard_files files exec)) n p
        → all_done p.slots ≡ true
        → (f : Chars)
        → (In f (flatten (files_of (outcomes p.slots))) ↔ IsInScope f)
          × (count f (flatten (files_of (outcomes p.slots))) ≤ 1)
          × ((finish_run marshal agent mode exec.merge (outcomes p.slots)).1 ≡ none
              → IsInScope f
              → (oc : ShardOutcome) × In oc (outcomes p.slots) × In f oc.files × RanClean oc)
    run_sharded-covers agent mode marshal files n p found s d f =
        let (_, distinct, scope) =
          glob_shard_files_lem match_glob glob stat exec.exclude exec.glob files found in
        let (each, sums) =
          run_sharded-outcomes exec require_actionable run agent mode marshal
            (shard_files files exec) n p s d in
        let same =
          Outcomes-files (MaySkip exec require_actionable run p.interrupted)
            (shard_files files exec) (outcomes p.slots) each in
        let counts : count f (flatten (files_of (outcomes p.slots))) ≡ count f files =
          ap (λ fs. count f (flatten fs)) same ∙ shard_files-count files exec f in
        let all_files = flatten (files_of (outcomes p.slots)) in
        let once = Distinct_count files distinct f in
        let reported : IsInScope f → In f all_files = λ k.
          let i = (count_iff f files).1 ((scope f).1 k) in
          (count_iff f all_files).0 (omega (arith, counts, i)) in
        (
          (
            λ i.
                let k = (count_iff f all_files).1 i in
                (scope f).0 ((count_iff f files).0 (omega (arith, counts, k))),
            reported,
          ),
          omega (arith, counts, once),
          λ passed k.
              find_clean _ f (shard_files files exec) (outcomes p.slots) each (sums.passed.0 passed)
                (reported k),
        )
