-- ===== src/Pipeline/Validity/References.antt =====
-- The tests of pipeline/pipeline.go on names that stages and gates refer to.
use squad.Base.{
  String, List, [], ◌∷◌, ◌≡◌, ◌≢◌, refl, ◌↔◌, ◌⊎◌, inl, inr, not, refuse_inv, refuse_intro,
  then_inv, then_intro, arith,
}
use squad.Base.Text.{◌==◌, eq_iff}
use squad.Base.All.{All, All-map, In, contains, contains_iff}
use squad.Pipeline.{Stage, Gate}
use squad.Pipeline.Validate.{
  unknown_dependency, self_dependency, unknown_gate_stage, gate_command_required, pass,
  check_depends_on, check_references, validate_gates,
}

-- What the stage named `stage` may depend on.
abbrev pub DependsOk : List String → String → List String → Type 0
DependsOk names stage = All (λ d. In d names × (d ≢ stage))

check_depends_on_iff :
    (names : List String) (stage : String) (ds : List String)
    → (check_depends_on names stage ds ≡ pass) ↔ DependsOk names stage ds
unfolding check_depends_on
check_depends_on_iff names stage [] = ((λ h. tt), λ h. refl)
check_depends_on_iff names stage (d ∷ ds) = (
  λ h.
      let (a, h1) = refuse_inv (not (contains names d)) (unknown_dependency stage d) _ _ h in
      let (b, h2) =
        refuse_inv (d == stage) (self_dependency stage) (check_depends_on names stage ds) tt h1 in
      (
        ((contains_iff names d).0 (ground arith), λ e. ground (arith, eq_iff d stage)),
        (check_depends_on_iff names stage ds).0 h2,
      ),
  λ k. refuse_intro (not (contains names d)) _ _ _ (rw ((contains_iff names d).1 k.0.0)) (
      refuse_intro (d == stage) _ _ _ (ground (arith, eq_iff d stage, k.0.1))
        ((check_depends_on_iff names stage ds).1 k.1)),
)

abbrev pub ReferencesOk : List String → List Stage → Type 0
ReferencesOk names = All (λ s. DependsOk names s.name s.depends_on)

pub check_references_iff :
    (names : List String) (ss : List Stage)
    → (check_references names ss ≡ pass) ↔ ReferencesOk names ss
unfolding check_references
check_references_iff names [] = ((λ h. tt), λ h. refl)
check_references_iff names (s ∷ ss) = (
  λ h.
      let (a, h1) = then_inv _ _ _ h in
      ((check_depends_on_iff names s.name s.depends_on).0 a, (check_references_iff names ss).0 h1),
  λ k.
      then_intro _ _ _ ((check_depends_on_iff names s.name s.depends_on).1 k.0)
        ((check_references_iff names ss).1 k.1),
)

abbrev pub GatesOk : List String → List Gate → Type 0
GatesOk names = All (λ (g : Gate). In g.after names × (g.command ≢ ""))

pub validate_gates_iff :
    (names : List String) (gs : List Gate) → (validate_gates names gs ≡ pass) ↔ GatesOk names gs
unfolding validate_gates
validate_gates_iff names [] = ((λ h. tt), λ h. refl)
validate_gates_iff names (g ∷ gs) = (
  λ h.
      let (a, h1) = refuse_inv (not (contains names g.after)) (unknown_gate_stage g.after) _ _ h in
      let (b, h2) =
        refuse_inv (g.command == "") (gate_command_required g.after) (validate_gates names gs) tt
          h1 in
      (
        ((contains_iff names g.after).0 (ground arith), λ e. ground (arith, eq_iff g.command "")),
        (validate_gates_iff names gs).0 h2,
      ),
  λ k.
      refuse_intro (not (contains names g.after)) _ _ _ (rw ((contains_iff names g.after).1 k.0.0))
        (refuse_intro (g.command == "") _ _ _ (ground (arith, eq_iff g.command "", k.0.1))
          ((validate_gates_iff names gs).1 k.1)),
)

-- Both tests depend on the set of the names only.
abbrev pub Same : List String → List String → Type 0
Same ms ns = (n : String) → In n ms ↔ In n ns

pub Same-sym : (ms ns : List String) → Same ms ns → Same ns ms
Same-sym ms ns f n = ((f n).1, (f n).0)

drop_right : {P : Type 0} → P ⊎ ⊥ → P
drop_right (inl p) = p
drop_right (inr e) = absurd e

pub Same-names : (ms ns : List String) → ((n : String) → In n ms ↔ (In n ns ⊎ ⊥)) → Same ms ns
Same-names ms ns f n = ((λ i. drop_right ((f n).0 i)), λ i. (f n).1 (inl i))

module _ (ms ns : List String) (same : Same ms ns) where
  pub ReferencesOk-same : (ss : List Stage) → ReferencesOk ms ss → ReferencesOk ns ss
  ReferencesOk-same = All-map (λ s. All-map (λ d k. ((same d).0 k.0, k.1)) s.depends_on)

  pub GatesOk-same : (gs : List Gate) → GatesOk ms gs → GatesOk ns gs
  GatesOk-same = All-map (λ (g : Gate) k. ((same g.after).0 k.0, k.1))
