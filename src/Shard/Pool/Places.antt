-- ===== src/Shard/Pool/Places.antt =====
-- How many shards of runner/shard.go run at the same time.
use squad.Base.{ℕ, ◌+◌, ◌≤◌, ◌≡◌, List, [], ◌∷◌, ◌++◌, Bool, arith}
use squad.Base.Chars.{Chars}
use squad.Shard.Config.{ExecutionConfig}
use squad.Shard.Single.{Reply}
use squad.Base.{Result}
use squad.Shard.Pool.{
  Slot, Pool, is_in, in_flight, capacity, start_pool, Step, take_place, skip, go, complete,
  interrupt, Steps, here, next,
}

in_flight-append : (xs ys : List Slot) → in_flight (xs ++ ys) ≡ in_flight xs + in_flight ys
unfolding in_flight
in_flight-append [] ys = omega arith
in_flight-append (s ∷ xs) ys = ground (arith, in_flight-append xs ys)

start_pool-in_flight :
    (exec : ExecutionConfig) (shards : List (List Chars))
    → in_flight (start_pool exec shards).slots ≡ 0
unfolding start_pool in_flight is_in
start_pool-in_flight exec [] = omega arith
start_pool-in_flight exec (s ∷ ss) = start_pool-in_flight exec ss

module _ (exec : ExecutionConfig) (require_actionable : Bool)
    (run : List Chars → Result Chars Reply) where
  Step-places :
      (p q : Pool)
      → Step exec require_actionable run p q
      → in_flight p.slots + p.free ≡ capacity exec.max_parallel
      → in_flight q.slots + q.free ≡ capacity exec.max_parallel
  unfolding in_flight is_in
  Step-places p q (take_place before after files n c i) e =
      let k = rw (in_flight-append before _) at e in rw (in_flight-append before _) (omega arith)
  Step-places p q (skip before after files n i) e =
      let k = rw (in_flight-append before _) at e in rw (in_flight-append before _) (omega arith)
  Step-places p q (go before after files n i) e =
      let k = rw (in_flight-append before _) at e in rw (in_flight-append before _) (omega arith)
  Step-places p q (complete before after files n c i) e =
      let k = rw (in_flight-append before _) at e in rw (in_flight-append before _) (omega arith)
  Step-places p q (interrupt slots n c) e = e

  Steps-places :
      (shards : List (List Chars)) (n : ℕ) (p : Pool)
      → Steps exec require_actionable run (start_pool exec shards) n p
      → in_flight p.slots + p.free ≡ capacity exec.max_parallel
  unfolding start_pool
  Steps-places shards n p here = omega (arith, start_pool-in_flight exec shards)
  Steps-places shards n p (next {n = m} {q = q} s t) = Step-places q p t (Steps-places shards m q s)

  -- Whatever the order of the steps, no place is lost and none is made up: the shards that have a
  -- place, those that wait to look at the context and those that run, and the free places are
  -- together those that the manifest lets run at once; so there are never more of these shards.
  pub in_flight-bound :
      (shards : List (List Chars)) (n : ℕ) (p : Pool)
      → Steps exec require_actionable run (start_pool exec shards) n p
      → (in_flight p.slots ≤ capacity exec.max_parallel)
        × (in_flight p.slots + p.free ≡ capacity exec.max_parallel)
  in_flight-bound shards n p s = let all = Steps-places shards n p s in (omega (arith, all), all)
