-- ===== src/Shard/Pool/Rounds.antt =====
-- The workers of runner/shard.go end.
use squad.Base.{
  ℕ, zero, suc, ◌+◌, ◌*◌, ◌≤◌, ◌<◌, ◌≡◌, refl, sym, subst, ap, ◌⊎◌, inl, inr, List, [], ◌∷◌, ◌++◌,
  true, false, Bool, arith, length, Bool-cases,
}
use squad.Base.Chars.{Chars}
use squad.Shard.Config.{ExecutionConfig}
use squad.Shard.Pool.Places.{in_flight-bound}
use squad.Shard.Single.{Reply}
use squad.Base.{Result}
use squad.Shard.Pool.{
  skipped, Status, waiting, placed, running, done, Slot, Pool, is_in, in_flight, capacity,
  start_pool, Step, take_place, skip, go, complete, interrupt, Steps, here, next, all_done, is_done,
}
use squad.Shard.Single.{settle_shard}

-- The steps that are left for the shards.
abbrev steps_left : Status → ℕ
steps_left waiting = 3
steps_left placed = 2
steps_left running = 1
steps_left (done oc) = 0

abbrev all_left : List Slot → ℕ
all_left [] = 0
all_left (s ∷ ss) = steps_left s.status + all_left ss

abbrev count_of : Bool → ℕ
count_of true = 1
count_of false = 0

all_left-append : (xs ys : List Slot) → all_left (xs ++ ys) ≡ all_left xs + all_left ys
all_left-append [] ys = omega arith
all_left-append (s ∷ xs) ys = omega (arith, all_left-append xs ys)

one_less :
    (before after : List Slot) (files : List Chars) (old new : Status)
    → suc (steps_left new) ≤ steps_left old
    → suc (all_left (before ++ record { files = files; status = new } ∷ after))
      ≤ all_left (before ++ record { files = files; status = old } ∷ after)
one_less before after files old new less = omega (
  arith,
  all_left-append before (record { files = files; status = new } ∷ after),
  all_left-append before (record { files = files; status = old } ∷ after),
)

start_pool-left :
    (exec : ExecutionConfig) (shards : List (List Chars))
    → all_left (start_pool exec shards).slots ≡ 3 * length shards
unfolding start_pool
start_pool-left exec [] = omega arith
start_pool-left exec (s ∷ ss) = omega (arith, start_pool-left exec ss)

-- A place that is taken, or else no place is taken and a shard waits, or else all are done.
abbrev Busy : List Slot → Type 0
Busy slots =
    (before : List Slot) × (after : List Slot) × (s : Slot) × (slots ≡ before ++ s ∷ after)
    × (is_in s.status ≡ true)

abbrev Idle : List Slot → Type 0
Idle slots =
    (before : List Slot) × (after : List Slot) × (files : List Chars) × (slots
      ≡ before ++ record { files = files; status = waiting } ∷ after)

abbrev Situation : List Slot → Type 0
Situation slots = Busy slots ⊎ ((in_flight slots ≡ 0) × (Idle slots ⊎ (all_done slots ≡ true)))

cons_eq : (s : Slot) {xs ys : List Slot} → xs ≡ ys → ◌≡◌ {A = List Slot} (s ∷ xs) (s ∷ ys)
cons_eq s e = ap (λ xs. s ∷ xs) e

with_first :
    (files : List Chars) (st : Status) (ss : List Slot)
    → Situation ss
    → Situation (record { files = files; status = st } ∷ ss)
unfolding in_flight is_in all_done is_done
with_first files placed ss state =
    inl ([], ss, record { files = files; status = placed }, refl, refl)
with_first files running ss state =
    inl ([], ss, record { files = files; status = running }, refl, refl)
with_first files st ss (inl (before, after, s, e, b)) =
    let first : Slot = record { files = files; status = st } in
    inl (first ∷ before, after, s, cons_eq first e, b)
with_first files waiting ss (inr (free, more)) = inr (free, inl ([], ss, files, refl))
with_first files (done oc) ss (inr (free, inl (before, after, waits, e))) =
    let first : Slot = record { files = files; status = done oc } in
    inr (free, inl (first ∷ before, after, waits, cons_eq first e))
with_first files (done oc) ss (inr (free, inr finished)) = inr (free, inr finished)

state_of : (slots : List Slot) → Situation slots
unfolding in_flight all_done
state_of [] = inr (refl, inr refl)
state_of (s ∷ ss) = with_first s.files s.status ss (state_of ss)

module _ (exec : ExecutionConfig) (require_actionable : Bool)
    (run : List Chars → Result Chars Reply) where
  Step-left :
      (p q : Pool)
      → Step exec require_actionable run p q
      → suc (all_left q.slots) + count_of p.interrupted ≤ all_left p.slots + count_of q.interrupted
  Step-left p q (take_place before after files n c i) =
      let k = one_less before after files waiting placed (omega arith) in omega arith
  Step-left p q (skip before after files n i) =
      let k = one_less before after files placed (done (skipped files)) (omega arith) in omega arith
  Step-left p q (go before after files n i) =
      let k = one_less before after files placed running (omega arith) in omega arith
  Step-left p q (complete before after files n c i) =
      let oc = settle_shard require_actionable files (run files) in
      let k = one_less before after files running (done oc) (omega arith) in omega arith
  Step-left p q (interrupt slots n c) = omega arith

  Steps-left :
      (shards : List (List Chars)) (n : ℕ) (p : Pool)
      → Steps exec require_actionable run (start_pool exec shards) n p
      → n + all_left p.slots ≤ 3 * length shards + count_of p.interrupted
  unfolding start_pool
  Steps-left shards n p here = omega (arith, start_pool-left exec shards)
  Steps-left shards n p (next {n = m} {q = q} s t) =
      let k = Steps-left shards m q s in let l = Step-left q p t in omega arith

  busy_steps :
      (before after : List Slot) (files : List Chars) (st : Status) (n : ℕ) (c i : Bool)
      → is_in st ≡ true
      → (q : Pool) × Step exec require_actionable run
          (record {
            slots = before ++ record { files = files; status = st } ∷ after;
            free = n;
            cancelled = c;
            interrupted = i;
          })
          q
  unfolding is_in
  busy_steps before after files waiting n c i b = absurd (cc)
  busy_steps before after files (done oc) n c i b = absurd (cc)
  busy_steps before after files placed n true i b = (_, skip before after files n i)
  busy_steps before after files placed n false i b = (_, go before after files n i)
  busy_steps before after files running n c i b = (_, complete before after files n c i)

  -- A pool in which not all are done has a step, if a shard may run at all.
  goes_on :
      (p : Pool)
      → 0 < capacity exec.max_parallel
      → in_flight p.slots + p.free ≡ capacity exec.max_parallel
      → all_done p.slots ≡ false
      → (q : Pool) × Step exec require_actionable run p q
  goes_on p room places more = elim (state_of p.slots) [
    | inl (before, after, s, e, b) ↦
        at_slots _ _ e refl (busy_steps before after s.files s.status _ _ _ b)
    | inr (free, inl (before, after, files, e)) ↦
        let (n, some_free) = has_one p.free (omega (arith, free, room, places)) in
        at_slots _ _ e some_free (_, take_place before after files n _ _)
    | inr (free, inr finished) ↦ absurd (cc)
  ]
    where
      has_one : (n : ℕ) → 0 < n → (m : ℕ) × (n ≡ suc m)
      has_one zero lt = absurd (omega arith)
      has_one (suc m) lt = (m, refl)

      at_slots :
          (ss : List Slot) (n : ℕ)
          → p.slots ≡ ss
          → p.free ≡ n
          → (q : Pool) × Step exec require_actionable run
              (record {
                slots = ss;
                free = n;
                cancelled = p.cancelled;
                interrupted = p.interrupted;
              })
              q
          → (q : Pool) × Step exec require_actionable run p q
      at_slots ss n e f (q, s) =
          let moved : ◌≡◌ {A = Pool}
              (record {
                slots = ss;
                free = n;
                cancelled = p.cancelled;
                interrupted = p.interrupted;
              })
              p =
            λ i. record {
              slots = sym e i;
              free = sym f i;
              cancelled = p.cancelled;
              interrupted = p.interrupted;
            } in
          (q, subst (λ x. Step exec require_actionable run x q) moved s)

  -- A pool of n shards, which at least one shard may run in, has at most 3n + 1 steps, in whatever
  -- order; and as long as a shard is not done there is a next step.
  pub Steps-end :
      (shards : List (List Chars)) (n : ℕ) (p : Pool)
      → 0 < capacity exec.max_parallel
      → Steps exec require_actionable run (start_pool exec shards) n p
      → (n ≤ 3 * length shards + 1)
        × ((all_done p.slots ≡ true) ⊎ ((q : Pool) × Step exec require_actionable run p q))
  Steps-end shards n p room s = (
    let k = Steps-left shards n p s in omega (arith, one_at_most p.interrupted),
    elim (Bool-cases (all_done p.slots)) [
      | inl d ↦ inl d
      | inr o ↦ inr (goes_on p room (in_flight-bound exec require_actionable run shards n p s).1 o)
    ],
  )
    where
      one_at_most : (b : Bool) → count_of b ≤ 1
      one_at_most true = omega arith
      one_at_most false = omega arith
