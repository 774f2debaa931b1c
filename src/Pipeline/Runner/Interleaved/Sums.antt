-- ===== src/Pipeline/Runner/Interleaved/Sums.antt =====
-- Sums of costs, for the agents of pipeline/runner.go that run at once.
use squad.Base.{ℕ, zero, suc, List, [], ◌∷◌, ◌++◌, true, ◌≡◌, arith}
use squad.Base.Int.{int_laws, eq_of_parts, pos, ◌+ℤ◌, ◌≤ℤ◌, ltb_ℤ, +ℤ_parts}
use squad.Pipeline.{Cost}
use squad.Pipeline.Runner.{add_spent}

abbrev pub total : List Cost → Cost
total [] = pos 0
total (c ∷ cs) = c +ℤ total cs

abbrev pub times : ℕ → Cost → Cost
times zero c = pos 0
times (suc n) c = c +ℤ times n c

pub total-append : (xs ys : List Cost) → total (xs ++ ys) ≡ total xs +ℤ total ys
total-append [] ys =
    omega (int_laws, +ℤ_parts (pos 0) (total ys), eq_of_parts (total ys) (pos 0 +ℤ total ys))
total-append (x ∷ xs) ys = rw (total-append xs ys) (omega (int_laws))

pub above_zero : (m : Cost) → ltb_ℤ (pos 0) m ≡ true → pos 0 ≤ℤ m
above_zero m h = ground arith

pub end_sum :
    (before after : List Cost) (spent cap bill most : Cost)
    → bill ≤ℤ cap
    → spent +ℤ total (before ++ cap ∷ after) ≤ℤ most
    → add_spent bill spent +ℤ total (before ++ after) ≤ℤ most
unfolding add_spent
end_sum before after spent cap bill most le h =
    let k = rw (total-append before (cap ∷ after)) at h in
    rw (total-append before after) (
      omega (
        arith,
        +ℤ_parts spent (total before +ℤ (cap +ℤ total after)),
        +ℤ_parts (total before) (cap +ℤ total after),
        +ℤ_parts cap (total after),
        +ℤ_parts (spent +ℤ bill) (total before +ℤ total after),
        +ℤ_parts spent bill,
        +ℤ_parts (total before) (total after),
      ))
