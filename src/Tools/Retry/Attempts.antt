-- ===== src/Tools/Retry/Attempts.antt =====
-- How often tools/retry.go calls the model, and what it returns.
use squad.Base.{
  ℕ, zero, suc, ◌+◌, ◌-◌, subst, ◌∙◌, ◌≤◌, ◌<◌, ◌≡◌, refl, ◌⊎◌, inl, inr, Bool, true, false, Option,
  none, ok, err, arith,
}
use squad.Base.Int.{ℤ}
use squad.Tools.Retry.{
  Error, Attempt, answered, failed, attempts_from, is_retryable, effective_retries,
  retry_generate_content,
}

ℕ-cases : (n : ℕ) → (n ≡ 0) ⊎ ((k : ℕ) × (n ≡ suc k))
ℕ-cases zero = inl refl
ℕ-cases (suc k) = inr (k, refl)

module _ {R : Type 0} (retryable : Error → Bool) (meets : ℕ → Attempt R) where
  -- An attempt that the loop goes on from: a call that failed, may be repeated, and was not
  -- interrupted while it waited.
  abbrev pub GoesOn : ℕ → Type 0
  GoesOn i = (e : Error) × (meets i ≡ failed e none) × (retryable e ≡ true)

  same_call :
      (a b i j : ℕ)
      → a ≡ b
      → i ≡ j
      → attempts_from retryable meets a i ≡ attempts_from retryable meets b j
  same_call a b i j p q = λ k. attempts_from retryable meets (p k) (q k)

  at : {i j : ℕ} → i ≡ j → GoesOn i → GoesOn j
  at e = subst GoesOn e

  attempts_from_bound :
      (left attempt : ℕ) → (attempts_from retryable meets left attempt).1 ≤ attempt + suc left
  unfolding attempts_from
  attempts_from_bound zero attempt = ground arith
  attempts_from_bound (suc left) attempt = ground (arith, attempts_from_bound left (attempt + 1))

  attempts_from_step :
      (left attempt : ℕ)
      → GoesOn attempt
      → attempts_from retryable meets (suc left) attempt
        ≡ attempts_from retryable meets left (attempt + 1)
  unfolding attempts_from
  attempts_from_step left attempt (e, m, r) = rw (m, attempts_from) (rw r)

  -- After `n` rounds that went on the loop stands `n` attempts further.
  attempts_from_skip :
      (n left attempt : ℕ)
      → n ≤ left
      → ((i : ℕ) → i < n → GoesOn (attempt + i))
      → attempts_from retryable meets left attempt
        ≡ attempts_from retryable meets (left - n) (attempt + n)
  attempts_from_skip zero left attempt le on =
      same_call left (left - 0) attempt (attempt + 0) (omega arith) (omega arith)
  attempts_from_skip (suc n) zero attempt le on = absurd (omega arith)
  attempts_from_skip (suc n) (suc left) attempt le on =
      attempts_from_step left attempt (at (omega arith) (on 0 (omega arith)))
      ∙ attempts_from_skip n left (attempt + 1) (omega arith)
          (λ i lt. at (omega arith) (on (suc i) (omega arith)))
      ∙ same_call (left - n) (suc left - suc n) (attempt + 1 + n) (attempt + suc n) (omega arith)
          (omega arith)

module _ {R : Type 0} (lower : ℕ → ℕ) (meets : ℕ → Attempt R) (max_retries : ℤ) where
  abbrev retries : ℕ
  retries = effective_retries max_retries

  abbrev pub Repeats : ℕ → Type 0
  Repeats = GoesOn (is_retryable lower) meets

  at_attempt :
      (n : ℕ)
      → n ≤ retries
      → ((i : ℕ) → i < n → Repeats i)
      → retry_generate_content lower meets max_retries
        ≡ attempts_from (is_retryable lower) meets (retries - n) n
  unfolding retry_generate_content
  at_attempt n le on =
      attempts_from_skip (is_retryable lower) meets n retries 0 le
        (λ i lt. subst (GoesOn (is_retryable lower) meets) (omega arith) (on i lt))
      ∙ same_call (is_retryable lower) meets (retries - n) (retries - n) (0 + n) n refl
          (omega arith)

  -- The model is called at most once more than there are retries.
  pub retry_generate_content_bound :
      (retry_generate_content lower meets max_retries).1 ≤ retries + 1
  unfolding retry_generate_content
  retry_generate_content_bound =
      omega (arith, attempts_from_bound (is_retryable lower) meets retries 0)

  module _ (n : ℕ) (le : n ≤ retries) (on : (i : ℕ) → i < n → Repeats i) where
    -- An answer within the retries is returned, if every call before it failed in a way that may be
    -- repeated, and no wait was interrupted.
    pub retry_generate_content_answered :
        (r : R)
        → meets n ≡ answered r
        → retry_generate_content lower meets max_retries ≡ (ok r, n + 1)
    unfolding attempts_from
    retry_generate_content_answered r h = at_attempt n le on ∙ elim (ℕ-cases (retries - n)) [
      | inl z ↦ rw (z, attempts_from) (rw h)
      | inr (k, z) ↦ rw (z, attempts_from) (rw h)
    ]

    -- An error within the retries that may not be repeated is returned at once, if every call before it
    -- failed in a way that may be, and no wait was interrupted.
    pub retry_generate_content_refused :
        (e : Error) (waiting : Option Error)
        → meets n ≡ failed e waiting
        → is_retryable lower e ≡ false
        → retry_generate_content lower meets max_retries ≡ (err e, n + 1)
    unfolding attempts_from
    retry_generate_content_refused e waiting h k =
        at_attempt n le on ∙ elim (ℕ-cases (retries - n)) [
          | inl z ↦ rw (z, attempts_from) (rw h)
          | inr (j, z) ↦ rw (z, attempts_from) (rw (h, k))
        ]

  -- If every attempt before the last fails in a way that may be repeated, with no wait interrupted, and
  -- the last fails too, its error is returned, after one call more than there are retries.
  pub retry_generate_content_exhausted :
      ((i : ℕ) → i < retries → Repeats i)
      → (e : Error) (waiting : Option Error) → meets retries ≡ failed e waiting
      → retry_generate_content lower meets max_retries ≡ (err e, retries + 1)
  unfolding attempts_from
  retry_generate_content_exhausted on e waiting h =
      at_attempt retries (omega arith) on
      ∙ same_call (is_retryable lower) meets (retries - retries) 0 retries retries (omega arith)
          refl
      ∙ rw (h, attempts_from)
