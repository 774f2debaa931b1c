-- ===== src/Pipeline/Runner/Outcome.antt =====
-- What the report of a run holds: pipeline/runner.go, `Run`.
use mathlib.Core.List.{append_assoc}
use squad.Base.{
  length, Result, ok, err, String, List, [], ◌∷◌, ◌++◌, false, Option, none, some, ◌≡◌, refl, sym,
  ap, ◌∙◌, Bool-cases, Option-cases, inl, inr,
}
use squad.Base.Chars.{Chars}
use squad.Base.Dict.{Dict}
use squad.Pipeline.{agent_list, Stage, Pipeline, Gate}
use squad.Pipeline.Partitions.{RelPath}
use squad.Pipeline.Cycle.Acyclic.{names_of}
use squad.Pipeline.Runner.{is_failed, AgentResult, Env, State}
use squad.Pipeline.Runner.PreGates.{PreGateError, run_pre_gates}
use squad.Pipeline.Runner.Context.{StageResult, StageError}
use squad.Pipeline.Runner.Stages.{
  run_agents, run_partitions, first_failed, conclude, finish_stage, run_groups, after_pre_gates,
  run_stage, run_tier,
}
use squad.Pipeline.Runner.Run.{after_gates, settle_result, settle_results, Progress, RunError}

abbrev pub result_names : List StageResult → List String
result_names [] = []
result_names (r ∷ rs) = r.name ∷ result_names rs

abbrev pub HasNotFailed : StageResult → Type 0
HasNotFailed r = is_failed r.status ≡ false

pub result_names-append :
    (rs ss : List StageResult) → result_names (rs ++ ss) ≡ result_names rs ++ result_names ss
result_names-append [] ss = refl
result_names-append (r ∷ rs) ss = rw (result_names-append rs ss)

pub names_of-append : (ss ts : List Stage) → names_of (ss ++ ts) ≡ names_of ss ++ names_of ts
names_of-append [] ts = refl
names_of-append (s ∷ ss) ts = rw (names_of-append ss ts)

conclude-name :
    (name : String) (agents : List AgentResult) (a : Option Chars)
    → (conclude name agents a).name ≡ name
unfolding conclude
conclude-name name agents none = refl
conclude-name name agents (some a) = refl

module _ {W : Type 0} (env : Env W) where
  finish_stage-name :
      (name : String) (done : List AgentResult × State W)
      → (finish_stage env name done).0.name ≡ name
  unfolding conclude first_failed
  finish_stage-name name done = conclude-name name done.0 (first_failed done.0)

  run_groups-name :
      (stage : Stage) (context : Chars) (groups : Option (Result StageError (List (List RelPath))))
      (st : State W)
      → (run_groups env stage context groups st).0.name ≡ stage.name
  unfolding run_groups
  run_groups-name stage context none st =
      finish_stage-name stage.name (run_agents env (agent_list stage) stage context st)
  run_groups-name stage context (some (err e)) st = refl
  run_groups-name stage context (some (ok [])) st = refl
  run_groups-name stage context (some (ok (g ∷ gs))) st =
      finish_stage-name stage.name
        (run_partitions env 0 (length (g ∷ gs)) (g ∷ gs) stage context st)

  after_pre_gates-name :
      (all : List Stage) (stage : Stage) (completed : Dict StageResult) (st : State W)
      (pre : Result PreGateError Chars × W)
      → (after_pre_gates env all stage completed st pre).0.name ≡ stage.name
  unfolding after_pre_gates
  after_pre_gates-name all stage completed st (err e, w) = refl
  after_pre_gates-name all stage completed st (ok output, w) = run_groups-name stage _ _ _

  pub run_tier-names :
      (all tier : List Stage) (completed : Dict StageResult) (st : State W)
      → result_names (run_tier env all tier completed st).0 ≡ names_of tier
  unfolding run_tier run_stage
  run_tier-names all [] completed st = refl
  run_tier-names all (s ∷ ss) completed st =
      rw (run_tier-names all ss completed _)
        (rw (after_pre_gates-name all s completed st (run_pre_gates env s st.world)) refl)

module _ {W : Type 0} (env : Env W) (p : Pipeline) where
  after_gates-stages :
      (found : Option Gate × W) (pr : Progress W) → (after_gates env p found pr).stages ≡ pr.stages
  unfolding after_gates
  after_gates-stages (none, w) pr = refl
  after_gates-stages (some g, w) pr = refl

  pub settle_result-stages :
      (r : StageResult) (pr : Progress W) → (settle_result env p r pr).stages ≡ pr.stages ++ r ∷ []
  unfolding settle_result
  settle_result-stages r pr = elim (Bool-cases (is_failed r.status)) [
    | inl e ↦ rw e refl
    | inr e ↦ rw e (after_gates-stages _ _)
  ]

  pub settle_result_passed :
      (r : StageResult) (pr : Progress W) → (settle_result env p r pr).error ≡ none → HasNotFailed r
  unfolding settle_result
  settle_result_passed r pr h = elim (Bool-cases (is_failed r.status)) [
    | inl e ↦ absurd (let k = rw e at h in cc)
    | inr e ↦ e
  ]

  pub settle_go :
      (r : StageResult) (rs : List StageResult) (pr : Progress W)
      → (settle_result env p r pr).error ≡ none
      → settle_results env p (r ∷ rs) pr ≡ settle_results env p rs (settle_result env p r pr)
  unfolding settle_results
  settle_go r rs pr e = rw (e, settle_results) refl

  pub settle_stop :
      (r : StageResult) (rs : List StageResult) (pr : Progress W) (why : RunError)
      → (settle_result env p r pr).error ≡ some why
      → settle_results env p (r ∷ rs) pr ≡ settle_result env p r pr
  unfolding settle_results
  settle_stop r rs pr why e = rw (e, settle_results) refl

  -- The results that are recorded, with the names of those that are not.
  pub settle_results-names :
      (rs : List StageResult) (pr : Progress W)
      → (rest : List String) × (result_names (settle_results env p rs pr).stages ++ rest
          ≡ result_names pr.stages ++ result_names rs)
        × ((settle_results env p rs pr).error ≡ none → rest ≡ [])
  unfolding settle_results
  settle_results-names [] pr = ([], refl, λ h. refl)
  settle_results-names (r ∷ rs) pr =
      let next : Progress W = settle_result env p r pr in
      let noted : result_names next.stages ++ result_names rs
          ≡ result_names pr.stages ++ (r.name ∷ result_names rs) =
        rw (settle_result-stages r pr, result_names-append pr.stages (r ∷ []))
          (append_assoc (result_names pr.stages) (r.name ∷ []) (result_names rs)) in
      elim (Option-cases next.error) [
        | inl e ↦
            let (rest, same, none_left) = settle_results-names rs next in
            (
              rest,
              ap (λ (q : Progress W). result_names q.stages ++ rest) (settle_go r rs pr e)
                  ∙ same
                  ∙ noted,
              λ h. none_left (ap (λ (q : Progress W). q.error) (sym (settle_go r rs pr e)) ∙ h),
            )
        | inr (why, e) ↦ (
          result_names rs,
          ap (λ (q : Progress W). result_names q.stages ++ result_names rs)
                (settle_stop r rs pr why e)
              ∙ noted,
          λ h.
              let k = ap (λ (q : Progress W). q.error) (sym (settle_stop r rs pr why e)) ∙ h in
              absurd (cc),
        )
      ]
