-- ===== src/Pipeline/Runner/Interleaved.antt =====
-- The budget of pipeline/runner.go when agents run at the same time: `runAgent` reads what is spent, runs
-- the agent, and adds its cost. At its start it reads twice, for the check and for the cap, and other
-- agents may come in between.
pub mod Sums
use squad.Pipeline.Runner.Interleaved.Sums.{total, times, total-append, above_zero, end_sum}
use squad.Base.{
  length-append, ◌+◌, ℕ, zero, suc, ◌≤◌, ◌<◌, List, [], ◌∷◌, ◌++◌, false, true, length, ◌≡◌, arith,
}
use squad.Base.Int.{int_laws, eq_of_parts, pos, ◌+ℤ◌, ◌≤ℤ◌, ltb_ℤ, +ℤ_parts}
use squad.Base.All.{All, All-append, All-append_left, All-append_right}
use squad.Pipeline.{Cost}
use squad.Pipeline.Runner.{add_spent, effective_cap, is_exhausted}
use squad.Pipeline.Runner.Spending.{effective_cap_bounds}

-- What is spent; how many agents have passed the check and not yet read their cap; the caps of the
-- agents that run and had something left when they read it; how many run and had nothing left then;
-- and what agents of the latter kind have cost, which the program does not keep.
pub record Budget : Type 0 where
  pub spent : Cost
  pub checked : ℕ
  pub running : List Cost
  pub late : ℕ
  pub late_spent : Cost

abbrev pub at_once : Budget → ℕ
at_once b = b.checked + length b.running + b.late

-- `limit` bounds how many agents are on their way at once. An agent that had something left costs
-- no more than the cap that it read; one that had not is told its stage's limit, or no cap, and may
-- cost anything.
pub data Step (max_cost : Cost) (limit : ℕ) : Budget → Budget → Type 0 where
  check :
      (b : Budget)
      → is_exhausted max_cost b.spent ≡ false
      → at_once b < limit
      → Step max_cost limit b (record b { checked = suc b.checked })
  begin :
      (spent late_spent : Cost) (checked late : ℕ) (running : List Cost) (stage_max : Cost)
      → is_exhausted max_cost spent ≡ false
      → Step max_cost limit
          (record {
            spent = spent;
            checked = suc checked;
            running = running;
            late = late;
            late_spent = late_spent;
          })
          (record {
            spent = spent;
            checked = checked;
            running = effective_cap max_cost spent stage_max ∷ running;
            late = late;
            late_spent = late_spent;
          })
  begin_late :
      (spent late_spent : Cost) (checked late : ℕ) (running : List Cost)
      → is_exhausted max_cost spent ≡ true
      → Step max_cost limit
          (record {
            spent = spent;
            checked = suc checked;
            running = running;
            late = late;
            late_spent = late_spent;
          })
          (record {
            spent = spent;
            checked = checked;
            running = running;
            late = suc late;
            late_spent = late_spent;
          })
  end :
      (spent late_spent : Cost) (checked late : ℕ) (before after : List Cost) (cap bill : Cost)
      → pos 0 ≤ℤ bill
      → bill ≤ℤ cap
      → Step max_cost limit
          (record {
            spent = spent;
            checked = checked;
            running = before ++ cap ∷ after;
            late = late;
            late_spent = late_spent;
          })
          (record {
            spent = add_spent bill spent;
            checked = checked;
            running = before ++ after;
            late = late;
            late_spent = late_spent;
          })
  end_late :
      (spent late_spent : Cost) (checked late : ℕ) (running : List Cost) (bill : Cost)
      → pos 0 ≤ℤ bill
      → Step max_cost limit
          (record {
            spent = spent;
            checked = checked;
            running = running;
            late = suc late;
            late_spent = late_spent;
          })
          (record {
            spent = add_spent bill spent;
            checked = checked;
            running = running;
            late = late;
            late_spent = add_spent bill late_spent;
          })

pub data Steps (max_cost : Cost) (limit : ℕ) (b : Budget) : Budget → Type 0 where
  here : Steps max_cost limit b b
  next :
      {c d : Budget} → Steps max_cost limit b c → Step max_cost limit c d → Steps max_cost limit b d

module _ (max_cost : Cost) (limited : ltb_ℤ (pos 0) max_cost ≡ true) where
  abbrev IsCap : Cost → Type 0
  IsCap c = (pos 0 ≤ℤ c) × (c ≤ℤ max_cost)

  total_caps :
      (cs : List Cost) (n : ℕ) → All IsCap cs → length cs ≤ n → total cs ≤ℤ times n max_cost
  total_caps [] zero a le = omega arith
  total_caps [] (suc n) a le =
      let rest = total_caps [] n tt (omega arith) in
      let some_cost = above_zero max_cost limited in
      omega (arith, +ℤ_parts max_cost (times n max_cost))
  total_caps (c ∷ cs) zero a le = absurd (omega arith)
  total_caps (c ∷ cs) (suc n) a le =
      let rest = total_caps cs n a.1 (omega arith) in
      let first = a.0.1 in
      omega (arith, +ℤ_parts c (total cs), +ℤ_parts max_cost (times n max_cost))

  record Inv (n : ℕ) (b : Budget) : Type 0 where
    few : at_once b ≤ suc n
    nonneg : pos 0 ≤ℤ b.spent
    late_nonneg : pos 0 ≤ℤ b.late_spent
    caps : All IsCap b.running
    under : b.spent +ℤ total b.running ≤ℤ (max_cost +ℤ times n max_cost) +ℤ b.late_spent

  paid : (s k : Cost) → pos 0 ≤ℤ s → pos 0 ≤ℤ k → pos 0 ≤ℤ add_spent k s
  unfolding add_spent
  paid s k h g = omega (arith, +ℤ_parts s k)

  more_late :
      (n : ℕ) (spent late_spent bill rest : Cost)
      → spent +ℤ rest ≤ℤ (max_cost +ℤ times n max_cost) +ℤ late_spent
      → add_spent bill spent +ℤ rest ≤ℤ (max_cost +ℤ times n max_cost) +ℤ add_spent bill late_spent
  unfolding add_spent
  more_late n spent late_spent bill rest h = omega (
    arith,
    +ℤ_parts spent rest,
    +ℤ_parts spent bill,
    +ℤ_parts (spent +ℤ bill) rest,
    +ℤ_parts late_spent bill,
    +ℤ_parts (max_cost +ℤ times n max_cost) late_spent,
    +ℤ_parts (max_cost +ℤ times n max_cost) (late_spent +ℤ bill),
  )

  Step-Inv : (n : ℕ) {b c : Budget} → Step max_cost (suc n) b c → Inv n b → Inv n c
  Step-Inv n (check b left room) inv = record {
    few = omega (arith, room);
    nonneg = inv.nonneg;
    late_nonneg = inv.late_nonneg;
    caps = inv.caps;
    under = inv.under;
  }
  Step-Inv n (begin spent late_spent checked late running stage_max left) inv =
      let (positive, sum, rest) = effective_cap_bounds max_cost spent stage_max limited left in
      let few = inv.few in
      let others = total_caps running n inv.caps (omega arith) in
      let spent_ok = inv.nonneg in
      let late_ok = inv.late_nonneg in
      let cap = effective_cap max_cost spent stage_max in
      record {
        few = omega (arith, few);
        nonneg = inv.nonneg;
        late_nonneg = inv.late_nonneg;
        caps = ((above_zero cap positive, omega (arith, +ℤ_parts spent cap)), inv.caps);
        under = omega (
          arith,
          +ℤ_parts spent cap,
          +ℤ_parts cap (total running),
          +ℤ_parts spent (cap +ℤ total running),
          +ℤ_parts max_cost (times n max_cost),
          +ℤ_parts (max_cost +ℤ times n max_cost) late_spent,
        );
      }
  Step-Inv n (begin_late spent late_spent checked late running gone) inv =
      let few = inv.few in
      record {
        few = omega (arith, few);
        nonneg = inv.nonneg;
        late_nonneg = inv.late_nonneg;
        caps = inv.caps;
        under = inv.under;
      }
  Step-Inv n (end spent late_spent checked late before after cap bill pays within) inv =
      let few = inv.few in
      record {
        few = omega (arith, few, length-append before after, length-append before (cap ∷ after));
        nonneg = paid spent bill inv.nonneg pays;
        late_nonneg = inv.late_nonneg;
        caps =
            All-append IsCap before after (All-append_left IsCap before (cap ∷ after) inv.caps)
              (All-append_right IsCap before (cap ∷ after) inv.caps).1;
        under = end_sum before after spent cap bill _ within inv.under;
      }
  Step-Inv n (end_late spent late_spent checked late running bill pays) inv =
      let few = inv.few in
      record {
        few = omega (arith, few);
        nonneg = paid spent bill inv.nonneg pays;
        late_nonneg = paid late_spent bill inv.late_nonneg pays;
        caps = inv.caps;
        under = more_late n spent late_spent bill (total running) inv.under;
      }

  total_nonneg : (cs : List Cost) → All IsCap cs → pos 0 ≤ℤ total cs
  total_nonneg [] a = omega arith
  total_nonneg (c ∷ cs) a =
      let rest = total_nonneg cs a.1 in let first = a.0.0 in omega (arith, +ℤ_parts c (total cs))

  Steps-Inv : (n : ℕ) {b c : Budget} → Steps max_cost (suc n) b c → Inv n b → Inv n c
  Steps-Inv n here inv = inv
  Steps-Inv n (next before step) inv = Step-Inv n step (Steps-Inv n before inv)

abbrev pub no_agent : Budget
no_agent = record { spent = pos 0; checked = 0; running = []; late = 0; late_spent = pos 0 }

-- With a budget, if no more than `n + 1` agents are on their way at once and each costs nothing at least,
-- and its cap at most where something was left when it read the cap, then whenever they check, read
-- their caps and end, what is spent is no more than `n + 1` times the budget and what was spent by agents
-- that found nothing left when they read their cap.
pub steps_within :
    (max_cost : Cost) (n : ℕ) (b : Budget)
    → ltb_ℤ (pos 0) max_cost ≡ true
    → Steps max_cost (suc n) no_agent b
    → b.spent ≤ℤ times (suc n) max_cost +ℤ b.late_spent
steps_within max_cost n b limited steps =
    let inv : Inv max_cost limited n b = Steps-Inv max_cost limited n steps start in
    let rest = total_nonneg max_cost limited b.running inv.caps in
    let sum = inv.under in omega (arith, +ℤ_parts b.spent (total b.running))
  where
    first_sum : pos 0 +ℤ pos 0 ≤ℤ (max_cost +ℤ times n max_cost) +ℤ pos 0
    first_sum =
        let others = total_caps max_cost limited [] n tt (omega arith) in
        let positive = above_zero max_cost limited in
        omega (
          arith,
          +ℤ_parts (pos 0) (pos 0),
          +ℤ_parts max_cost (times n max_cost),
          +ℤ_parts (max_cost +ℤ times n max_cost) (pos 0),
        )

    start : Inv max_cost limited n no_agent
    start = record {
      few = omega arith;
      nonneg = omega arith;
      late_nonneg = omega arith;
      caps = tt;
      under = first_sum;
    }
