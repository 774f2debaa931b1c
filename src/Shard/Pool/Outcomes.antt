-- ===== src/Shard/Pool/Outcomes.antt =====
-- What the shards of runner/shard.go end with.
use squad.Base.{
  ℕ, ◌≡◌, refl, subst, ap, ◌∙◌, ◌⊎◌, inl, inr, List, [], ◌∷◌, ◌++◌, map, Bool, true, false, ◌&&◌,
  ◌||◌, Result,
}
use squad.Base.All.{All, All-map}
use squad.Base.Chars.{Chars, bytes, same_text}
use squad.Shard.Config.{ExecutionConfig}
use squad.Shard.Merge.{ShardOutcome, ShardedResult, is_error}
use squad.Shard.Merge.Sums.{Summed, finish_run-Summed}
use squad.Shard.Single.{Reply}
use squad.Base.{Result}
use squad.Shard.Pool.{
  Status, waiting, placed, running, done, Slot, Pool, start_pool, skipped, stops, Step, take_place,
  skip, go, complete, interrupt, Steps, here, next, all_done, is_done, outcomes, result_of,
}
use squad.Shard.Single.{Reply, settle_shard}

abbrev slot_files : List Slot → List (List Chars)
slot_files ss = map (λ s. s.files) ss

slot_files-append :
    (before after : List Slot) (files : List Chars) (old new : Status)
    → slot_files (before ++ record { files = files; status = old } ∷ after)
      ≡ slot_files (before ++ record { files = files; status = new } ∷ after)
slot_files-append [] after files old new = refl
slot_files-append (s ∷ before) after files old new =
    ap (λ fs. s.files ∷ fs) (slot_files-append before after files old new)

module _ (exec : ExecutionConfig) (require_actionable : Bool)
    (run : List Chars → Result Chars Reply) where
  -- The caller cancelled the run, or the manifest lets a failure stop it.
  abbrev pub MaySkip : Bool → Type 0
  MaySkip interrupted = (interrupted ≡ true) ⊎ (same_text exec.on_shard_error (bytes "stop") ≡ true)

  -- The outcome of a shard that ran, or of one that was skipped because the run may skip shards.
  abbrev pub IsOutcome : Type 0 → List Chars → ShardOutcome → Type 0
  IsOutcome May files oc =
      (oc ≡ settle_shard require_actionable files (run files)) ⊎ (May × (oc ≡ skipped files))

  abbrev Settled : Type 0 → List Chars → Status → Type 0
  Settled May files (done oc) = IsOutcome May files oc
  Settled May files waiting = Unit
  Settled May files placed = Unit
  Settled May files running = Unit

  abbrev AllSettled : Type 0 → List Slot → Type 0
  AllSettled May ss = All (λ s. Settled May s.files s.status) ss

  Settled-map :
      (May May' : Type 0)
      → (May → May')
      → (files : List Chars) (st : Status) → Settled May files st
      → Settled May' files st
  Settled-map May May' f files waiting s = tt
  Settled-map May May' f files placed s = tt
  Settled-map May May' f files running s = tt
  Settled-map May May' f files (done oc) (inl ran) = inl ran
  Settled-map May May' f files (done oc) (inr (m, e)) = inr (f m, e)

  AllSettled-put :
      (May : Type 0) (before after : List Slot) (files : List Chars) (old new : Status)
      → AllSettled May (before ++ record { files = files; status = old } ∷ after)
      → Settled May files new
      → AllSettled May (before ++ record { files = files; status = new } ∷ after)
  AllSettled-put May [] after files old new a s = (s, a.1)
  AllSettled-put May (b ∷ before) after files old new a s =
      (a.0, AllSettled-put May before after files old new a.1 s)

  record Inv (shards : List (List Chars)) (p : Pool) : Type 0 where
    same : slot_files p.slots ≡ shards
    cause : p.cancelled ≡ true → MaySkip p.interrupted
    settled : AllSettled (MaySkip p.interrupted) p.slots

  start_pool-Inv : (shards : List (List Chars)) → Inv shards (start_pool exec shards)
  unfolding start_pool
  start_pool-Inv shards = record {
    same = same shards;
    cause = λ e. absurd (cc);
    settled = none_done shards;
  }
    where
      same : (ss : List (List Chars)) → slot_files (start_pool exec ss).slots ≡ ss
      same [] = refl
      same (s ∷ ss) = ap (λ xs. s ∷ xs) (same ss)

      none_done : (ss : List (List Chars)) → AllSettled (MaySkip false) (start_pool exec ss).slots
      none_done [] = tt
      none_done (s ∷ ss) = (tt, none_done ss)

  stop_cause :
      (c i : Bool) (oc : ShardOutcome)
      → (c ≡ true → MaySkip i)
      → (c || stops exec oc) ≡ true
      → MaySkip i
  unfolding stops
  stop_cause true i oc may h = may refl
  stop_cause false i oc may h = inr (second (is_error oc.error) _ h)
    where
      second : (a b : Bool) → (a && b) ≡ true → b ≡ true
      second true b e = e
      second false b e = absurd (cc)

  Step-Inv :
      (shards : List (List Chars)) (p q : Pool)
      → Step exec require_actionable run p q
      → Inv shards p
      → Inv shards q
  Step-Inv shards p q (take_place before after files n c i) v = record {
    same = slot_files-append before after files placed waiting ∙ v.same;
    cause = v.cause;
    settled = AllSettled-put (MaySkip i) before after files waiting placed v.settled tt;
  }
  Step-Inv shards p q (skip before after files n i) v = record {
    same = slot_files-append before after files (done (skipped files)) placed ∙ v.same;
    cause = v.cause;
    settled =
        AllSettled-put (MaySkip i) before after files placed (done (skipped files)) v.settled
          (inr (v.cause refl, refl));
  }
  Step-Inv shards p q (go before after files n i) v = record {
    same = slot_files-append before after files running placed ∙ v.same;
    cause = v.cause;
    settled = AllSettled-put (MaySkip i) before after files placed running v.settled tt;
  }
  Step-Inv shards p q (complete before after files n c i) v =
      let oc = settle_shard require_actionable files (run files) in
      record {
        same = slot_files-append before after files (done oc) running ∙ v.same;
        cause = stop_cause c i oc v.cause;
        settled =
            AllSettled-put (MaySkip i) before after files running (done oc) v.settled (inl refl);
      }
  Step-Inv shards p q (interrupt slots n c) v = record {
    same = v.same;
    cause = λ e. inl refl;
    settled =
        All-map
          (λ s k. Settled-map (MaySkip false) (MaySkip true) (λ m. inl refl) s.files s.status k)
          slots v.settled;
  }

  Steps-Inv :
      (shards : List (List Chars)) (n : ℕ) (p : Pool)
      → Steps exec require_actionable run (start_pool exec shards) n p
      → Inv shards p
  Steps-Inv shards n p here = start_pool-Inv shards
  Steps-Inv shards n p (next {n = m} {q = q} s t) = Step-Inv shards q p t (Steps-Inv shards m q s)

  -- One outcome for each shard, in the order of the shards.
  abbrev pub Outcomes : Type 0 → List (List Chars) → List ShardOutcome → Type 0
  Outcomes May [] [] = Unit
  Outcomes May [] (oc ∷ ocs) = ⊥
  Outcomes May (files ∷ shards) [] = ⊥
  Outcomes May (files ∷ shards) (oc ∷ ocs) = IsOutcome May files oc × Outcomes May shards ocs

  done-IsOutcome :
      (May : Type 0) (files : List Chars) (st : Status)
      → is_done st ≡ true
      → Settled May files st
      → IsOutcome May files (result_of st)
  unfolding is_done result_of
  done-IsOutcome May files (done oc) d s = s
  done-IsOutcome May files waiting d s = absurd (cc)
  done-IsOutcome May files placed d s = absurd (cc)
  done-IsOutcome May files running d s = absurd (cc)

  outcomes-Outcomes :
      (May : Type 0) (ss : List Slot)
      → all_done ss ≡ true
      → AllSettled May ss
      → Outcomes May (slot_files ss) (outcomes ss)
  unfolding all_done outcomes
  outcomes-Outcomes May [] d a = tt
  outcomes-Outcomes May (s ∷ ss) d a = (
    done-IsOutcome May s.files s.status (left_part (is_done s.status) (all_done ss) d) a.0,
    outcomes-Outcomes May ss (right_part (is_done s.status) (all_done ss) d) a.1,
  )
    where
      left_part : (a b : Bool) → (a && b) ≡ true → a ≡ true
      left_part true b e = refl
      left_part false b e = absurd (cc)

      right_part : (a b : Bool) → (a && b) ≡ true → b ≡ true
      right_part true b e = e
      right_part false b e = absurd (cc)

  pub run_sharded-outcomes :
      (agent mode : Chars) (marshal : ShardedResult → Chars) (shards : List (List Chars)) (n : ℕ)
      (p : Pool)
      → Steps exec require_actionable run (start_pool exec shards) n p
      → all_done p.slots ≡ true
      → Outcomes (MaySkip p.interrupted) shards (outcomes p.slots)
        × Summed agent mode exec.merge marshal (outcomes p.slots)
  run_sharded-outcomes agent mode marshal shards n p s d =
      let v = Steps-Inv shards n p s in
      (
        subst (λ ss. Outcomes (MaySkip p.interrupted) ss (outcomes p.slots)) v.same
            (outcomes-Outcomes (MaySkip p.interrupted) p.slots d v.settled),
        finish_run-Summed agent mode exec.merge marshal (outcomes p.slots),
      )
