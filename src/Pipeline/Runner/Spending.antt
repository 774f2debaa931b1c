-- ===== src/Pipeline/Runner/Spending.antt =====
-- The cost budget of pipeline/runner.go: `RemainingBudget`, `runAgent` and what calls it.
use squad.Base.{
  if◌then◌else◌, not, subst, not, ◌⊎◌, String, Bool, true, false, ◌&&◌, ◌||◌, Option, none, some,
  ◌≡◌, refl, arith, Bool-cases, inl, inr,
}
use squad.Base.Int.{pos, ltb_ℤ, ◌≤ℤ◌, ◌-ℤ◌, ◌+ℤ◌, +ℤ_parts, -ℤ_parts}
use squad.Base.Chars.{Chars}
use squad.Base.Dict.{Dict, lookup, lookup-insert}
use squad.Pipeline.{Cost, Stage}
use squad.Pipeline.Runner.{
  Env, State, VarValue, cost, charge, add_spent, remaining_budget, effective_cap, is_exhausted,
  agent_vars, cap_var, pipeline_max_cost_var, run_agent,
}

-- An agent that is told a cap costs no more than that.
abbrev pub KeepsCap : {W : Type 0} → Env W → Type 0
KeepsCap {W = W} env =
    (agent : String) (prompt : Chars) (mode : String) (vars : Dict VarValue) (w : W) (cap : Cost)
    → lookup pipeline_max_cost_var vars ≡ some (cost cap)
    → charge (env.run_agent agent prompt mode vars w).0.metrics (pos 0) ≤ℤ cap

remaining_eq :
    (max_cost spent : Cost)
    → ltb_ℤ (pos 0) max_cost ≡ true
    → remaining_budget max_cost spent
      ≡ (if ltb_ℤ (max_cost -ℤ spent) (pos 0) then pos 0 else max_cost -ℤ spent)
unfolding remaining_budget
remaining_eq max_cost spent limited = rw limited refl

something_left : (a b : Bool) → a ≡ true → (a && not b) ≡ false → b ≡ true
something_left a b h k = ground arith

left_over :
    (max_cost spent : Cost)
    → ltb_ℤ (pos 0) max_cost ≡ true
    → is_exhausted max_cost spent ≡ false
    → (remaining_budget max_cost spent ≡ max_cost -ℤ spent)
      × (ltb_ℤ (pos 0) (remaining_budget max_cost spent) ≡ true)
left_over max_cost spent limited left =
    let k : ltb_ℤ (pos 0) (remaining_budget max_cost spent) ≡ true =
      something_left _ _ limited left in
    (
      elim (Bool-cases (ltb_ℤ (max_cost -ℤ spent) (pos 0))) [
        | inl e ↦ absurd (zero_not_left (rw (remaining_eq max_cost spent limited, e) at k))
        | inr e ↦ rw (remaining_eq max_cost spent limited, e) refl
      ],
      k,
    )
  where
    zero_not_left : ltb_ℤ (pos 0) (pos 0) ≡ true → ⊥
    zero_not_left h = ground arith

unfoldable pick_cap : Cost → Cost → Cost
pick_cap left stage_max =
    if ltb_ℤ (pos 0) stage_max && (not (ltb_ℤ (pos 0) left) || ltb_ℤ stage_max left)
    then stage_max
    else left

pick_cap_bounds :
    (left stage_max : Cost)
    → ltb_ℤ (pos 0) left ≡ true
    → (ltb_ℤ (pos 0) (pick_cap left stage_max) ≡ true)
      × (pick_cap left stage_max ≤ℤ left)
      × ((ltb_ℤ (pos 0) stage_max ≡ false) ⊎ (pick_cap left stage_max ≤ℤ stage_max))
unfolding pick_cap
pick_cap_bounds left stage_max h = ground arith

-- With a budget and something left of it, the cap is positive, within what is left, and within the stage's
-- own limit where it has one.
pub effective_cap_bounds :
    (max_cost spent stage_max : Cost)
    → ltb_ℤ (pos 0) max_cost ≡ true
    → is_exhausted max_cost spent ≡ false
    → (ltb_ℤ (pos 0) (effective_cap max_cost spent stage_max) ≡ true)
      × (spent +ℤ effective_cap max_cost spent stage_max ≤ℤ max_cost)
      × ((ltb_ℤ (pos 0) stage_max ≡ false) ⊎ (effective_cap max_cost spent stage_max ≤ℤ stage_max))
unfolding effective_cap pick_cap
effective_cap_bounds max_cost spent stage_max limited left =
    let (same, more) = left_over max_cost spent limited left in
    let (positive, under, stage_under) =
      pick_cap_bounds (remaining_budget max_cost spent) stage_max more in
    (positive, sum_le max_cost spent _ _ under same, stage_under)
  where
    sum_le : (m s c r : Cost) → c ≤ℤ r → r ≡ m -ℤ s → s +ℤ c ≤ℤ m
    sum_le m s c r h e =
        let k : c ≤ℤ m -ℤ s = subst (λ x. c ≤ℤ x) e h in omega (arith, +ℤ_parts s c, -ℤ_parts m s)

told_cap :
    (max_cost spent : Cost) (stage : Stage)
    → ltb_ℤ (pos 0) max_cost ≡ true
    → is_exhausted max_cost spent ≡ false
    → lookup pipeline_max_cost_var (agent_vars max_cost spent stage)
      ≡ some (cost (effective_cap max_cost spent stage.max_cost))
unfolding agent_vars cap_var
told_cap max_cost spent stage limited left =
    let (positive, under, rest) = effective_cap_bounds max_cost spent stage.max_cost limited left in
    rw limited (rw positive (rw (lookup-insert pipeline_max_cost_var pipeline_max_cost_var) refl))

charge_sum : (bill : Option Cost) (spent : Cost) → charge bill spent ≡ spent +ℤ charge bill (pos 0)
unfolding ◌+ℤ◌ add_spent
charge_sum none spent = ground arith
charge_sum (some c) spent = ground arith

charged_under :
    (bill : Option Cost) (spent cap max_cost : Cost)
    → charge bill (pos 0) ≤ℤ cap
    → spent +ℤ cap ≤ℤ max_cost
    → charge bill spent ≤ℤ max_cost
charged_under bill spent cap max_cost h k =
    rw (charge_sum bill spent)
      (omega (arith, +ℤ_parts spent cap, +ℤ_parts spent (charge bill (pos 0))))

module _ {W : Type 0} (env : Env W) (limited : ltb_ℤ (pos 0) env.max_cost ≡ true)
    (keeps : KeepsCap env) where
  pub run_agent_within :
      (agent : String) (stage : Stage) (context : Chars) (st : State W)
      → st.spent ≤ℤ env.max_cost
      → (run_agent env agent stage context st).1.spent ≤ℤ env.max_cost
  unfolding run_agent
  run_agent_within agent stage context st h =
      elim (Bool-cases (is_exhausted env.max_cost st.spent)) [
        | inl e ↦ rw e h
        | inr e ↦
            let (positive, under, rest) =
              effective_cap_bounds env.max_cost st.spent stage.max_cost limited e in
            let told = told_cap env.max_cost st.spent stage limited e in
            rw e (
              charged_under _ st.spent _ env.max_cost (keeps agent _ stage.mode _ st.world _ told)
                under)
      ]
