-- ===== src/Pipeline/Runner/Gates.antt =====
-- The gates of pipeline/runner.go, before and behind a stage.
use mathlib.Core.Option.{some-injective}
use squad.Base.Chars.{Chars, trim_space}
use squad.Base.{
  sym, subst, Bool, true, List, [], ◌∷◌, false, Option, none, some, ◌≡◌, refl, ◌↔◌, ◌⊎◌, inl, inr,
  Bool-cases,
}
use squad.Pipeline.{Gate, Pipeline, gates_after}
use squad.Pipeline.Runner.{Env, is_failed}
use squad.Pipeline.Runner.Context.{StageResult}
use squad.Pipeline.Runner.Outcome.{HasNotFailed}
use squad.Pipeline.Runner.Run.{
  gates_from, run_gates, has_uncommitted_changes, after_gates, settle_result, Progress,
}

-- The commands succeed, one after the other.
abbrev pub AllSucceed : {W : Type 0} → Env W → List Gate → W → Type 0
AllSucceed env [] w = Unit
AllSucceed env (g ∷ gs) w =
    ((env.run_command g.command w).0.is_error ≡ false)
    × AllSucceed env gs (env.run_command g.command w).1

-- `git diff` has run, and has printed nothing but spaces.
abbrev pub IsUnchanged : {W : Type 0} → Env W → W → Type 0
IsUnchanged env w = (out : Chars) × ((env.git_diff w).0 ≡ some out) × (trim_space out ≡ [])

-- When the gates let a run go on: there are none, or git shows no change, or all succeed.
abbrev pub GatesPass : {W : Type 0} → Env W → List Gate → W → Type 0
GatesPass env [] w = Unit
GatesPass env (g ∷ gs) w = IsUnchanged env w ⊎ AllSucceed env (g ∷ gs) (env.git_diff w).1

module _ {W : Type 0} (env : Env W) where
  gates_from_iff : (gs : List Gate) (w : W) → ((gates_from env gs w).0 ≡ none) ↔ AllSucceed env gs w
  unfolding gates_from
  gates_from_iff [] w = ((λ h. tt), λ h. refl)
  gates_from_iff (g ∷ gs) w = elim (Bool-cases (env.run_command g.command w).0.is_error) [
    | inl e ↦
        ((λ h. let k = rw (e, gates_from) at h in absurd (cc)), λ s. absurd (let k = s.0 in cc))
    | inr e ↦ (
      (λ h. (e, (gates_from_iff gs _).0 (rw (e, gates_from) at h))),
      λ s. rw (e, gates_from) ((gates_from_iff gs (env.run_command g.command w).1).1 s.1),
    )
  ]

  has_uncommitted_changes_iff :
      (w : W) → ((has_uncommitted_changes env w).0 ≡ false) ↔ IsUnchanged env w
  unfolding has_uncommitted_changes
  has_uncommitted_changes_iff w = shown (env.git_diff w).0
    where
      blank : (t : Chars) → (◌≡◌ {A = Bool} (elim t [ [] ↦ false | c ∷ s ↦ true ]) false) ↔ (t ≡ [])
      blank [] = ((λ h. refl), λ h. refl)
      blank (c ∷ s) = ((λ h. absurd (cc)), λ h. absurd (cc))

      shown :
          (diff : Option Chars)
          → (◌≡◌ {A = Bool}
              (elim diff [
                | none ↦ true
                | some out ↦ elim (trim_space out) [ [] ↦ false | c ∷ s ↦ true ]
              ])
              false)
            ↔ ((out : Chars) × (diff ≡ some out) × (trim_space out ≡ []))
      shown none = ((λ h. absurd (cc)), λ (out, e, _). absurd (cc))
      shown (some out) = (
        λ h. (out, refl, (blank (trim_space out)).0 h),
        λ (other, e, b).
            let same : out ≡ other = some-injective out other e in
            (blank (trim_space out)).1 (subst (λ t. trim_space t ≡ []) (sym same) b),
      )

  run_gates_iff : (gs : List Gate) (w : W) → ((run_gates env gs w).0 ≡ none) ↔ GatesPass env gs w
  unfolding run_gates has_uncommitted_changes
  run_gates_iff [] w = ((λ h. tt), λ h. refl)
  run_gates_iff (g ∷ gs) w = elim (Bool-cases (has_uncommitted_changes env w).0) [
    | inl e ↦ (
      (λ h. inr ((gates_from_iff (g ∷ gs) _).0 (rw (e, run_gates) at h))),
      λ s. elim s [
        | inl n ↦ absurd (let k = (has_uncommitted_changes_iff w).1 n in cc)
        | inr all ↦
            rw (e, run_gates) ((gates_from_iff (g ∷ gs) (has_uncommitted_changes env w).1).1 all)
      ],
    )
    | inr e ↦ ((λ h. inl ((has_uncommitted_changes_iff w).0 e)), λ s. rw (e, run_gates) refl)
  ]

module _ {W : Type 0} (env : Env W) (p : Pipeline) where
  after_gates_iff :
      (found : Option Gate × W) (pr : Progress W)
      → pr.error ≡ none
      → ((after_gates env p found pr).error ≡ none) ↔ (found.0 ≡ none)
  unfolding after_gates
  after_gates_iff (none, w) pr clean = ((λ h. refl), λ h. clean)
  after_gates_iff (some g, w) pr clean = ((λ h. absurd (cc)), λ h. absurd (cc))

  -- A run without an error so far goes on behind a stage exactly if the stage has not failed and the
  -- gates after it pass, whatever their `on_failure` says: there are none, or git runs and shows no
  -- change, or every command succeeds. Where git fails, the commands have to succeed.
  pub settle_result_iff :
      (r : StageResult) (pr : Progress W)
      → pr.error ≡ none
      → ((settle_result env p r pr).error ≡ none)
        ↔ (HasNotFailed r × GatesPass env (gates_after p.gates r.name) pr.state.world)
  unfolding settle_result
  settle_result_iff r pr clean = elim (Bool-cases (is_failed r.status)) [
    | inl e ↦
        ((λ h. let k = rw (e, settle_result) at h in absurd (cc)), λ s. absurd (let k = s.0 in cc))
    | inr e ↦
        let gates = run_gates_iff env (gates_after p.gates r.name) pr.state.world in
        let found = run_gates env (gates_after p.gates r.name) pr.state.world in
        (
          (λ h. (e, gates.0 ((after_gates_iff found _ clean).0 (rw (e, settle_result) at h)))),
          λ s. rw (e, settle_result) ((after_gates_iff found _ clean).1 (gates.1 s.1)),
        )
  ]
