-- ===== src/Pipeline/Runner/Handoffs.antt =====
-- What pipeline/runner.go passes on, and what a failed pre-gate means.
use squad.Base.{
  ◌⊎◌, Bool, true, false, ok, err, String, List, [], ◌∷◌, ◌++◌, ◌≡◌, refl, inl, inr, Bool-cases,
}
use squad.Base.Chars.{Chars}
use squad.Base.Text.{codes, eq_iff, ◌==◌}
use squad.Base.Dict.{Dict}
use squad.Pipeline.{Stage, PreGate}
use squad.Pipeline.Runner.{Env, State, AgentResult, skipped}
use squad.Pipeline.Runner.PreGates.{
  PreGateError, skipping_stage, stopping_pipeline, label_of, gate_section, on_failure,
  pre_gates_from, run_pre_gates,
}
use squad.Pipeline.Runner.Context.{StageResult, pre_gate_failed, summarize_agent_output}
use squad.Pipeline.Runner.Stages.{ended, after_pre_gates, run_stage}

module _ {W : Type 0} (env : Env W) where
  -- What a run asks for after it, in order: a text for a stage, of an agent's output.
  unfoldable pub summarize_all : List (Stage × String × AgentResult) → State W → State W
  summarize_all [] st = st
  summarize_all ((dep, name, ar) ∷ calls) st =
      summarize_all calls (summarize_agent_output env dep name ar st).1

  -- A command that fails and whose `on_error` says `skip` or `stop`.
  abbrev pub Stops : PreGate → W → Type 0
  Stops pg w =
      ((env.run_command pg.command w).0.is_error ≡ true)
      × ((pg.on_error ≡ "skip") ⊎ (pg.on_error ≡ "stop"))

  -- The commands run one after the other up to the first that stops, and leave the world so.
  pub data FirstStops : List PreGate → W → W → Type 0 where
    here :
        {pg : PreGate} {pgs : List PreGate} {w : W}
        → Stops pg w
        → FirstStops (pg ∷ pgs) w (env.run_command pg.command w).1
    later :
        {pg : PreGate} {pgs : List PreGate} {w after : W}
        → (Stops pg w → ⊥)
        → FirstStops pgs (env.run_command pg.command w).1 after
        → FirstStops (pg ∷ pgs) w after

  on_failure_stops :
      (pg : PreGate) (b : Bool)
      → (b ≡ true) × ((pg.on_error ≡ "skip") ⊎ (pg.on_error ≡ "stop"))
      → (why : PreGateError) × (on_failure pg b ≡ err why)
  unfolding on_failure
  on_failure_stops pg false h = absurd (let k = h.0 in cc)
  on_failure_stops pg true h = elim (Bool-cases (pg.on_error == "skip")) [
    | inl e ↦ (skipping_stage (label_of pg), rw e refl)
    | inr n ↦ elim h.1 [
      | inl skip ↦ absurd (let k = (eq_iff pg.on_error "skip").1 skip in cc)
      | inr stop ↦
          (stopping_pipeline (label_of pg), rw n (rw ((eq_iff pg.on_error "stop").1 stop) refl))
    ]
  ]

  on_failure_passes :
      (pg : PreGate) (b : Bool)
      → ((b ≡ true) × ((pg.on_error ≡ "skip") ⊎ (pg.on_error ≡ "stop")) → ⊥)
      → on_failure pg b ≡ ok tt
  unfolding on_failure
  on_failure_passes pg false h = refl
  on_failure_passes pg true h = elim (Bool-cases (pg.on_error == "skip")) [
    | inl e ↦ absurd (h (refl, inl ((eq_iff pg.on_error "skip").0 e)))
    | inr n ↦ elim (Bool-cases (pg.on_error == "stop")) [
      | inl e ↦ absurd (h (refl, inr ((eq_iff pg.on_error "stop").0 e)))
      | inr m ↦ rw n (rw m refl)
    ]
  ]

  pre_gates_from_stops :
      (pgs : List PreGate) (sb : Chars) (w after : W)
      → FirstStops pgs w after
      → (why : PreGateError) × (pre_gates_from env pgs sb w ≡ (err why, after))
  unfolding pre_gates_from
  pre_gates_from_stops [] sb w after stops = elim stops [ ]
  pre_gates_from_stops (pg ∷ pgs) sb w after (here stops) =
      let (why, e) = on_failure_stops pg (env.run_command pg.command w).0.is_error stops in
      (why, rw (e, pre_gates_from) refl)
  pre_gates_from_stops (pg ∷ pgs) sb w after (later passes more) =
      let e = on_failure_passes pg (env.run_command pg.command w).0.is_error passes in
      let (why, f) =
        pre_gates_from_stops pgs
          (sb ++ gate_section (label_of pg) (env.run_command pg.command w).0.printed)
          (env.run_command pg.command w).1 after more in
      (why, rw (e, pre_gates_from) f)

  run_pre_gates_stops :
      (stage : Stage) (pgs : List PreGate) (w after : W)
      → stage.pre_gates ≡ pgs
      → FirstStops pgs w after
      → (why : PreGateError) × (run_pre_gates env stage w ≡ (err why, after))
  unfolding run_pre_gates
  run_pre_gates_stops stage [] w after e stops = elim stops [ ]
  run_pre_gates_stops stage (pg ∷ pgs) w after e stops =
      let (why, f) =
        pre_gates_from_stops (pg ∷ pgs) (codes "## Static Analysis Output\n\n") w after stops in
      (why, rw e f)

  -- If the commands before the first that stops run, and this one fails with `skip` or `stop`, the
  -- stage ends as skipped, in either case: the later commands and the agents do not run, and the
  -- rest of the state, with what is spent and the findings, is as it was.
  pub run_stage_skips :
      (all : List Stage) (stage : Stage) (completed : Dict StageResult) (st : State W) (after : W)
      → FirstStops stage.pre_gates st.world after
      → run_stage env all stage completed st
        ≡ (ended stage.name skipped pre_gate_failed, record st { world = after })
  unfolding run_stage after_pre_gates
  run_stage_skips all stage completed st after stops =
      let (why, e) = run_pre_gates_stops stage stage.pre_gates st.world after refl stops in
      rw e refl
