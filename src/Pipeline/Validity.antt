-- ===== src/Pipeline/Validity.antt =====
-- What `Validate` of pipeline/pipeline.go accepts, stated without its loops.
pub mod Stages
pub mod References
use squad.Base.{
  ℕ, suc, ◌+◌, String, List, [], ◌∷◌, ◌≡◌, ◌≢◌, refl, sym, subst, ◌↔◌, ◌⊎◌, inl, inr, Bool, true,
  false, not, ◌&&◌, ◌||◌, Option, none, some, Result, ok, err, ◌>>=◌, ◌>>◌, refuse_if,
  refuse_passed, refuse_inv, refuse_intro, then_inv, then_intro, bind_inv, bind_intro, arith,
  Bool-cases,
}
use squad.Base.Text.{◌==◌, eq_iff}
use squad.Base.All.{All, All-map, In, Distinct, contains, contains_iff}
use squad.Pipeline.{Pipeline, Stage, Gate, Partition, agent_list}
use squad.Pipeline.Cycle.{done, cycle, exhausted, detect_cycle}
use squad.Pipeline.Cycle.Acyclic.{
  names_of, IsAcyclic, detect_cycle_sound, detect_cycle_complete, detect_cycle_total,
}
use squad.Pipeline.Cycle.Frame.{Walk-cases}
use squad.Pipeline.Validate.{
  Check, pass, check_partition, check_stage, is_empty, bad_summarize, validate_stages,
  check_depends_on, check_references, cycle_error, validate_dependencies, validate_gates, validate,
  no_stage,
}
use squad.Pipeline.Validity.Stages.{
  IsStageOk, Fresh-nil, validate_stages_sound, validate_stages_complete,
}
use squad.Pipeline.Validity.References.{
  ReferencesOk, GatesOk, Same, Same-sym, Same-names, ReferencesOk-same, GatesOk-same,
  check_references_iff, validate_gates_iff,
}

-- A valid pipeline: named, with at least one stage; each stage well formed, the names all
-- different; dependencies on other stages of the pipeline, without a cycle; gates on stages of it.
pub record IsValid (p : Pipeline) : Type 0 where
  pub named : p.name ≢ ""
  pub has_stage : p.stages ≢ []
  pub stages_ok : All IsStageOk p.stages
  pub distinct : Distinct (names_of p.stages)
  pub references : ReferencesOk (names_of p.stages) p.stages
  pub acyclic : IsAcyclic p.stages
  pub gates_ok : GatesOk (names_of p.stages) p.gates

cycle_error_sound :
    (ss : List Stage) → Distinct (names_of ss) → cycle_error (detect_cycle ss) ≡ pass → IsAcyclic ss
unfolding cycle_error
cycle_error_sound ss distinct h = elim (Walk-cases (detect_cycle ss)) [
  | inl (c, e) ↦ detect_cycle_sound ss c distinct e
  | inr (inl (a, b, e)) ↦ absurd (ground arith)
  | inr (inr e) ↦ absurd (detect_cycle_total ss e)
]

cycle_error_complete : (ss : List Stage) → IsAcyclic ss → cycle_error (detect_cycle ss) ≡ pass
unfolding cycle_error
cycle_error_complete ss acyclic = let (c, e) = detect_cycle_complete ss acyclic in rw e

no_stage_iff : (ss : List Stage) → (no_stage ss ≡ false) ↔ (ss ≢ [])
no_stage_iff [] = ((λ h. absurd (cc)), λ h. absurd (h refl))
no_stage_iff (s ∷ ss) = ((λ h e. cc), λ h. refl)

-- Every pipeline that `Validate` accepts is valid.
pub validate_sound : (p : Pipeline) → validate p ≡ pass → IsValid p
unfolding validate validate_dependencies
validate_sound p h =
    let (a, h1) = refuse_inv _ _ _ _ h in
    let (b, h2) = refuse_inv _ _ _ _ h1 in
    let (names, c, h3) = bind_inv (validate_stages 0 [] p.stages) _ _ h2 in
    let (oks, distinct, fresh, members) = validate_stages_sound 0 [] p.stages names c in
    let same : Same names (names_of p.stages) = Same-names _ _ members in
    let (d, h4) = then_inv _ _ _ h3 in
    let (e, f) = then_inv _ _ _ d in
    record {
      named = λ q. ground (arith, eq_iff p.name "");
      has_stage = (no_stage_iff p.stages).0 b;
      stages_ok = oks;
      distinct = distinct;
      references =
          ReferencesOk-same names (names_of p.stages) same p.stages
            ((check_references_iff names p.stages).0 e);
      acyclic = cycle_error_sound p.stages distinct f;
      gates_ok =
          GatesOk-same names (names_of p.stages) same p.gates
            ((validate_gates_iff names p.gates).0 h4);
    }

-- `Validate` accepts every valid pipeline.
pub validate_complete : (p : Pipeline) → IsValid p → validate p ≡ pass
unfolding validate validate_dependencies
validate_complete p v =
    let names_ok =
      validate_stages_complete 0 [] p.stages v.stages_ok v.distinct
        (Fresh-nil (names_of p.stages)) in
    let names = names_ok.0 in
    let found = validate_stages_sound 0 [] p.stages names names_ok.1 in
    let same : Same (names_of p.stages) names = Same-sym _ _ (Same-names _ _ found.3) in
    refuse_intro (p.name == "") _ _ _ (ground (arith, eq_iff p.name "", v.named)) (
      refuse_intro _ _ _ _ ((no_stage_iff p.stages).1 v.has_stage) (
        bind_intro _ _ names _ names_ok.1 (
          then_intro _ _ _
            (then_intro _ _ _
              ((check_references_iff names p.stages).1
                (ReferencesOk-same (names_of p.stages) names same p.stages v.references))
              (cycle_error_complete p.stages v.acyclic))
            ((validate_gates_iff names p.gates).1
              (GatesOk-same (names_of p.stages) names same p.gates v.gates_ok)))))
