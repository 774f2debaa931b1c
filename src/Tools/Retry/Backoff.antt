-- ===== src/Tools/Retry/Backoff.antt =====
-- How long tools/retry.go waits.
use native.Mathlib.Nat.{zero-add, suc-add, pow-suc}
use squad.Base.{subst, ◌-◌, ℕ, zero, suc, ◌+◌, ◌*◌, ◌^◌, ◌≤◌, ◌≡◌, arith, min}
use squad.Base.Int.{ℤ, pos}
use squad.Tools.Retry.{retry_base_delay, retry_max_delay, backoff_delay}

two_pow_mono : (k n : ℕ) → 2 ^ n ≤ 2 ^ (k + n)
two_pow_mono zero n = rw zero-add (omega arith)
two_pow_mono (suc k) n = rw suc-add (rw pow-suc (omega (arith, two_pow_mono k n)))

two_pow_small : (n : ℕ) → n ≤ 32 → 2 ^ n ≤ 2 ^ 32
two_pow_small n le =
    let e : (32 - n) + n ≡ 32 = omega arith in
    subst (λ k. 2 ^ n ≤ 2 ^ k) e (two_pow_mono (32 - n) n)

-- Up to attempt 32 the delay is the base delay times 2^attempt, but the maximum at most, whatever the
-- machine makes of a conversion that overflows.
pub backoff_delay_lem :
    (overflowed : ℕ → ℤ) (attempt : ℕ)
    → attempt ≤ 32
    → backoff_delay overflowed attempt ≡ pos (min (retry_base_delay * 2 ^ attempt) retry_max_delay)
unfolding backoff_delay
backoff_delay_lem overflowed attempt le = ground (arith, two_pow_small attempt le)
