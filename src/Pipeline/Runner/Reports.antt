-- ===== src/Pipeline/Runner/Reports.antt =====
-- What the report of a run holds: pipeline/runner.go, `Run`, against `TopologicalOrder`.
use mathlib.Core.List.{append-nil, flatten}
use mathlib.Core.Option.{some-injective}
use squad.Base.{String, List, ◌++◌, Option, none, some, ◌≡◌, refl, sym, ap, ◌∙◌, ◌↔◌, subst}
use squad.Base.Int.{ℤ}
use squad.Base.All.{All, In, Distinct}
use squad.Base.Dict.{MapOrder}
use squad.Pipeline.{Stage, Pipeline}
use squad.Pipeline.Cycle.Acyclic.{names_of, In-names_of, stage_of_name}
use squad.Pipeline.Validity.{IsValid}
use squad.Pipeline.Order.{topological_order}
use squad.Pipeline.Order.Rounds.{topological_order_layers}
use squad.Pipeline.Order.Schedule.{topological_order_once}
use squad.Pipeline.Runner.{Env}
use squad.Pipeline.Runner.Run.{run_tiers, Progress, Report, RunError, run, report_of, start}
use squad.Pipeline.Runner.Outcome.{result_names, HasNotFailed}
use squad.Pipeline.Runner.Accounts.{run_tiers-names, run_tiers_passed}

module _ {W : Type 0} (env : Env W) (order : MapOrder ℤ) (p : Pipeline) (v : IsValid p) where
  -- For a valid pipeline `Run` ends with a report, whatever the callbacks do and whatever the order of
  -- the maps. The report names stages in the order of the tiers, from the first on, and leaves out none
  -- but those behind the last that it names.
  pub run_reports :
      (w : W)
      → (report : Report) × (error : Option RunError) × (tiers : List (List Stage)) × (rest : List
          String)
        × (run env p order w ≡ some (report, error))
        × (topological_order order p.stages ≡ some tiers)
        × (result_names report.stages ++ rest ≡ names_of (flatten tiers))
  unfolding run report_of
  run_reports w =
      let (tiers, e, layered) = topological_order_layers order p v in
      let (rest, same, none_left) = run_tiers-names env p tiers (start env p w) in
      let done = report_of env p (run_tiers env p tiers (start env p w)) in
      (done.0, done.1, tiers, rest, rw (e, run) refl, e, same)

  ran :
      (w : W) (found : Report × Option RunError)
      → run env p order w ≡ some found
      → (tiers : List (List Stage)) × (topological_order order p.stages ≡ some tiers)
        × (report_of env p (run_tiers env p tiers (start env p w)) ≡ found)
  unfolding run
  ran w found h =
      let (tiers, e, layered) = topological_order_layers order p v in
      let k : ◌≡◌ {A = Option (Report × Option RunError)}
          (some (report_of env p (run_tiers env p tiers (start env p w)))) (some found) =
        rw (e, run) at h in
      (tiers, e, some-injective _ found k)

  -- A run of a valid pipeline that ends without an error has a result for every stage, one for each,
  -- and none of them failed.
  pub run_passed :
      (w : W) (report : Report)
      → run env p order w ≡ some (report, none)
      → Distinct (result_names report.stages)
        × ((n : String) → In n (result_names report.stages) ↔ In n (names_of p.stages))
        × All HasNotFailed report.stages
  unfolding report_of
  run_passed w report h =
      let (tiers, e, same) = ran w (report, none) h in
      let (rest, listed, none_left) = run_tiers-names env p tiers (start env p w) in
      let over : Progress W = run_tiers env p tiers (start env p w) in
      let no_error : over.error ≡ none = ap (λ (q : Report × Option RunError). q.1) same in
      let shown : over.stages ≡ report.stages =
        ap (λ (q : Report × Option RunError). q.0.stages) same in
      let names : result_names report.stages ≡ names_of (flatten tiers) =
        ap result_names (sym shown)
        ∙ sym (append-nil (result_names over.stages))
        ∙ ap (λ ns. result_names over.stages ++ ns) (sym (none_left no_error))
        ∙ listed in
      let (distinct, member) = topological_order_once order p v tiers e in
      (
        subst Distinct (sym names) distinct,
        λ n.
            subst (λ ns. In n ns ↔ In n (names_of p.stages)) (sym names)
              (Same-names (flatten tiers) p.stages member n),
        subst (All HasNotFailed) shown (run_tiers_passed env p tiers (start env p w) tt no_error),
      )
    where
      Same-names :
          (ss ts : List Stage)
          → ((s : Stage) → In s ss ↔ In s ts)
          → (n : String) → In n (names_of ss) ↔ In n (names_of ts)
      Same-names ss ts member n = (
        (λ i.
            let (s, j, e) = stage_of_name n ss i in
            subst (λ m. In m (names_of ts)) e (In-names_of s ts ((member s).0 j))),
        λ i.
            let (s, j, e) = stage_of_name n ts i in
            subst (λ m. In m (names_of ss)) e (In-names_of s ss ((member s).1 j)),
      )
