-- ===== src/Tools/Retry.antt =====
-- tools/retry.go: calls of the model, repeated on errors that pass.
pub mod Backoff
pub mod Attempts
use squad.Base.{
  ℕ, zero, suc, ◌+◌, ◌*◌, ◌^◌, String, List, [], ◌∷◌, map, Bool, true, false, not, ◌&&◌, ◌||◌,
  Option, none, some, Result, ok, err, ltb, leb, if◌then◌else◌,
}
use squad.Base.Int.{ℤ, pos, negsuc, ltb_ℤ}
use squad.Base.Text.{codes}
use squad.Base.Chars.{Chars, contains_text}

abbrev pub default_max_retries : ℕ
default_max_retries = 3

-- Durations are in nanoseconds.
abbrev pub retry_base_delay : ℕ
retry_base_delay = 2000000000

abbrev pub retry_max_delay : ℕ
retry_max_delay = 30000000000

-- The `llms.ErrorCode` values that the source names, and any other.
pub data ErrorCode : Type 0 where
  authentication rate_limit resource_not_found token_limit content_filter quota_exceeded : ErrorCode
  invalid_request provider_unavailable timeout unknown : ErrorCode
  other : String → ErrorCode

-- An error, by what the source asks of it: its text, the `llms.Error` that it wraps, and whether it
-- is a cancelled or expired context.
pub record Error : Type 0 where
  pub message : Chars
  pub wrapped : Option ErrorCode
  pub context_over : Bool

unfoldable pub is_retryable_code : ErrorCode → Bool
is_retryable_code provider_unavailable = true
is_retryable_code rate_limit = true
is_retryable_code timeout = true
is_retryable_code _ = false

pub record ErrorMapping : Type 0 where
  pub patterns : List Chars
  pub code : ErrorCode

abbrev mapping : List String → ErrorCode → ErrorMapping
mapping ps c = record { patterns = map codes ps; code = c }

abbrev pub error_mappings : List ErrorMapping
error_mappings =
    mapping ("invalid api key" ∷ "authentication failed" ∷ "401" ∷ []) authentication
    ∷ mapping ("rate limit" ∷ "too many requests" ∷ "429" ∷ []) rate_limit
    ∷ mapping ("model not found" ∷ "invalid model" ∷ []) resource_not_found
    ∷ mapping ("maximum tokens" ∷ "context window" ∷ []) token_limit
    ∷ mapping ("content blocked" ∷ "safety violation" ∷ []) content_filter
    ∷ mapping ("credit limit" ∷ "quota exceeded" ∷ []) quota_exceeded
    ∷ mapping ("invalid request" ∷ "400" ∷ []) invalid_request
    ∷ mapping ("overloaded" ∷ "503" ∷ "service unavailable" ∷ "500" ∷ "internal server error" ∷ [])
        provider_unavailable
    ∷ []

abbrev pub transient_network_patterns : List Chars
transient_network_patterns = map codes (
    "connection reset" ∷ "connection refused" ∷ "connection timed out" ∷ "broken pipe" ∷ "eof"
    ∷ "temporary failure" ∷ "no such host" ∷ "i/o timeout" ∷ "network is unreachable"
    ∷ "tls handshake" ∷ "network error" ∷ "failed to reach" ∷ "request timeout" ∷ [])

unfoldable pub any_contained : Chars → List Chars → Bool
any_contained text [] = false
any_contained text (p ∷ ps) = contains_text text p || any_contained text ps

unfoldable pub first_mapping : Chars → List ErrorMapping → ErrorCode
first_mapping text [] = unknown
first_mapping text (m ∷ ms) =
    if any_contained text m.patterns then m.code else first_mapping text ms

-- `lower` is `unicode.ToLower`, which `strings.ToLower` applies to each character.
module _ (lower : ℕ → ℕ) where
  -- The code of the error that `classifyError` returns.
  unfoldable pub classify_error : Error → ErrorCode
  classify_error e = elim e.wrapped [
    | none ↦ first_mapping (map lower e.message) error_mappings
    | some c ↦ c
  ]

  unfoldable pub is_unknown : ErrorCode → Bool
  is_unknown unknown = true
  is_unknown _ = false

  unfoldable pub is_retryable : Error → Bool
  is_retryable e =
      if e.context_over
      then false
      else if is_retryable_code (classify_error e)
      then true
      else is_unknown (classify_error e)
        && any_contained (map lower e.message) transient_network_patterns

-- The product is exact in float64. Its conversion to int64 is fixed by the language where it fits;
-- where it does not, the result depends on the machine: `overflowed`.
unfoldable pub raw_delay : (ℕ → ℤ) → ℕ → ℤ
raw_delay overflowed attempt =
    if ltb (retry_base_delay * 2 ^ attempt) (2 ^ 63)
    then pos (retry_base_delay * 2 ^ attempt)
    else overflowed attempt

unfoldable pub backoff_delay : (ℕ → ℤ) → ℕ → ℤ
unfolding raw_delay
backoff_delay overflowed attempt =
    let delay = raw_delay overflowed attempt in
    if ltb_ℤ (pos retry_max_delay) delay then pos retry_max_delay else delay

-- What one attempt meets: the context is over before it, the model answers, or the call fails and
-- the context may end while the loop waits.
pub data Attempt (R : Type 0) : Type 0 where
  over_before : Error → Attempt R
  answered : R → Attempt R
  failed : Error → Option Error → Attempt R

-- The result, with the number of calls that were made.
abbrev pub Outcome : Type 0 → Type 0
Outcome R = Result Error R × ℕ

module _ {R : Type 0} (retryable : Error → Bool) (meets : ℕ → Attempt R) where
  -- `left` attempts may follow this one; `attempt` is also the number of calls so far.
  unfoldable pub attempts_from : ℕ → ℕ → Outcome R
  attempts_from zero attempt = elim (meets attempt) [
    | over_before e ↦ (err e, attempt)
    | answered r ↦ (ok r, attempt + 1)
    | failed e waiting ↦ (err e, attempt + 1)
  ]
  attempts_from (suc left) attempt = elim (meets attempt) [
    | over_before e ↦ (err e, attempt)
    | answered r ↦ (ok r, attempt + 1)
    | failed e waiting ↦ elim (retryable e) [
      | false ↦ (err e, attempt + 1)
      | true ↦ elim waiting [
        | some over ↦ (err over, attempt + 1)
        | none ↦ attempts_from left (attempt + 1)
      ]
    ]
  ]

unfoldable pub effective_retries : ℤ → ℕ
effective_retries (pos zero) = default_max_retries
effective_retries (pos (suc n)) = suc n
effective_retries (negsuc n) = default_max_retries

unfoldable pub retry_generate_content : {R : Type 0} → (ℕ → ℕ) → (ℕ → Attempt R) → ℤ → Outcome R
unfolding attempts_from effective_retries
retry_generate_content lower meets max_retries =
    attempts_from (is_retryable lower) meets (effective_retries max_retries) 0
