-- ===== src/Pipeline/Runner/Accounts.antt =====
-- What the loops of `Run` record, against the tiers: pipeline/runner.go.
use mathlib.Core.List.{append_assoc, append-nil, flatten}
use squad.Base.{
  String, List, [], ◌∷◌, ◌++◌, none, some, ◌≡◌, refl, sym, ap, ◌∙◌, Option-cases, inl, inr,
}
use squad.Base.All.{All, All-append}
use squad.Pipeline.{Stage, Pipeline}
use squad.Pipeline.Cycle.Acyclic.{names_of}
use squad.Pipeline.Runner.{Env}
use squad.Pipeline.Runner.Context.{StageResult}
use squad.Pipeline.Runner.Stages.{run_tier}
use squad.Pipeline.Runner.Run.{settle_result, settle_results, run_tiers, Progress, RunError}
use squad.Pipeline.Runner.Outcome.{
  result_names, HasNotFailed, names_of-append, run_tier-names, settle_go, settle_stop,
  settle_result-stages, settle_result_passed, settle_results-names,
}

module _ {W : Type 0} (env : Env W) (p : Pipeline) where
  settle_results_passed :
      (rs : List StageResult) (pr : Progress W)
      → All HasNotFailed pr.stages
      → (settle_results env p rs pr).error ≡ none
      → All HasNotFailed (settle_results env p rs pr).stages
  unfolding settle_results
  settle_results_passed [] pr before h = before
  settle_results_passed (r ∷ rs) pr before h =
      let next : Progress W = settle_result env p r pr in
      elim (Option-cases next.error) [
        | inl e ↦
            let noted : All HasNotFailed next.stages = rw (settle_result-stages env p r pr) (
              All-append HasNotFailed pr.stages (r ∷ []) before
                (settle_result_passed env p r pr e, tt)) in
            rw (settle_go env p r rs pr e) (
              settle_results_passed rs next noted
                (ap (λ (q : Progress W). q.error) (sym (settle_go env p r rs pr e)) ∙ h))
        | inr (why, e) ↦
            let k = ap (λ (q : Progress W). q.error) (sym (settle_stop env p r rs pr why e)) ∙ h in
            absurd (cc)
      ]

  -- The progress behind a tier.
  unfoldable pub after_tier : List Stage → Progress W → Progress W
  after_tier tier pr =
      let done = run_tier env p.stages tier pr.completed pr.state in
      settle_results env p done.0 (record pr { state = done.1 })

  pub tiers_go :
      (tier : List Stage) (tiers : List (List Stage)) (pr : Progress W)
      → (after_tier tier pr).error ≡ none
      → run_tiers env p (tier ∷ tiers) pr ≡ run_tiers env p tiers (after_tier tier pr)
  unfolding run_tiers after_tier
  tiers_go tier tiers pr e = rw (e, run_tiers) refl

  pub tiers_stop :
      (tier : List Stage) (tiers : List (List Stage)) (pr : Progress W) (why : RunError)
      → (after_tier tier pr).error ≡ some why
      → run_tiers env p (tier ∷ tiers) pr ≡ after_tier tier pr
  unfolding run_tiers after_tier
  tiers_stop tier tiers pr why e = rw (e, run_tiers) refl

  after_tier-names :
      (tier : List Stage) (pr : Progress W)
      → (rest : List String) × (result_names (after_tier tier pr).stages ++ rest
          ≡ result_names pr.stages ++ names_of tier)
        × ((after_tier tier pr).error ≡ none → rest ≡ [])
  unfolding after_tier
  after_tier-names tier pr =
      let done = run_tier env p.stages tier pr.completed pr.state in
      let (rest, same, none_left) =
        settle_results-names env p done.0 (record pr { state = done.1 }) in
      (
        rest,
        same
            ∙ ap (λ ns. result_names pr.stages ++ ns)
                (run_tier-names env p.stages tier pr.completed pr.state),
        none_left,
      )

  pub run_tiers-names :
      (tiers : List (List Stage)) (pr : Progress W)
      → (rest : List String) × (result_names (run_tiers env p tiers pr).stages ++ rest
          ≡ result_names pr.stages ++ names_of (flatten tiers))
        × ((run_tiers env p tiers pr).error ≡ none → rest ≡ [])
  unfolding run_tiers flatten
  run_tiers-names [] pr = ([], refl, λ h. refl)
  run_tiers-names (tier ∷ tiers) pr =
      let next : Progress W = after_tier tier pr in
      let (left, noted, all_noted) = after_tier-names tier pr in
      let spread : (result_names pr.stages ++ names_of tier) ++ names_of (flatten tiers)
          ≡ result_names pr.stages ++ names_of (tier ++ flatten tiers) =
        append_assoc (result_names pr.stages) (names_of tier) (names_of (flatten tiers))
        ∙ ap (λ ns. result_names pr.stages ++ ns) (sym (names_of-append tier (flatten tiers))) in
      elim (Option-cases next.error) [
        | inl e ↦
            let (rest, same, none_left) = run_tiers-names tiers next in
            let whole : result_names next.stages ≡ result_names pr.stages ++ names_of tier =
              sym (append-nil (result_names next.stages))
              ∙ ap (λ ns. result_names next.stages ++ ns) (sym (all_noted e))
              ∙ noted in
            (
              rest,
              ap (λ (q : Progress W). result_names q.stages ++ rest) (tiers_go tier tiers pr e)
                  ∙ same
                  ∙ ap (λ ns. ns ++ names_of (flatten tiers)) whole
                  ∙ spread,
              λ h.
                  none_left (ap (λ (q : Progress W). q.error) (sym (tiers_go tier tiers pr e)) ∙ h),
            )
        | inr (why, e) ↦ (
          left ++ names_of (flatten tiers),
          ap (λ (q : Progress W). result_names q.stages ++ (left ++ names_of (flatten tiers)))
                (tiers_stop tier tiers pr why e)
              ∙ sym (append_assoc (result_names next.stages) left (names_of (flatten tiers)))
              ∙ ap (λ ns. ns ++ names_of (flatten tiers)) noted
              ∙ spread,
          λ h.
              let k = ap (λ (q : Progress W). q.error) (sym (tiers_stop tier tiers pr why e)) ∙ h in
              absurd (cc),
        )
      ]

  pub run_tiers_passed :
      (tiers : List (List Stage)) (pr : Progress W)
      → All HasNotFailed pr.stages
      → (run_tiers env p tiers pr).error ≡ none
      → All HasNotFailed (run_tiers env p tiers pr).stages
  unfolding run_tiers
  run_tiers_passed [] pr before h = before
  run_tiers_passed (tier ∷ tiers) pr before h = elim (Option-cases (after_tier tier pr).error) [
    | inl e ↦ rw (tiers_go tier tiers pr e) (
        run_tiers_passed tiers (after_tier tier pr)
          (unfold after_tier in
            settle_results_passed (run_tier env p.stages tier pr.completed pr.state).0
              (record pr { state = (run_tier env p.stages tier pr.completed pr.state).1 }) before e)
          (ap (λ (q : Progress W). q.error) (sym (tiers_go tier tiers pr e)) ∙ h))
    | inr (why, e) ↦
        let k = ap (λ (q : Progress W). q.error) (sym (tiers_stop tier tiers pr why e)) ∙ h in
        absurd (cc)
  ]
