-- ===== src/Routine/Tests.antt =====
-- The routines' theorems at concrete names and times.
use squad.Base.{ok, ℕ, ◌+◌, [], true, some, ◌≡◌, refl, ◌<◌, inl, inr, arith}
use squad.Base.Int.{pos}
use squad.Base.Text.{codes}
use squad.Base.Chars.{Chars}
use squad.Routine.Manifest.{validate_id}
use squad.Routine.Scope.{Ref}
use squad.Routine.Catchup.{Entry, missed_since}
use squad.Routine.Catchup.Latest.{IsLater, IsFire, IsOver, missed_since_found}

abbrev nightly : Chars
nightly = codes "nightly-2"

-- An id with a hyphen.
nightly_is_valid : validate_id nightly ≡ ok tt
unfolding validate_id
nightly_is_valid = refl

abbrev nightly_ref : Ref
nightly_ref = record { scope = codes "repo"; root = codes "/work/app"; id = nightly }

-- A schedule that fires each hour, in hours.
abbrev hourly : Chars → ℕ → ℕ
hourly schedule t = t + 1

hourly-IsLater : IsLater hourly
hourly-IsLater schedule t = inr (omega arith)

abbrev nightly_entry : Entry
nightly_entry = record {
  ref = nightly_ref;
  routine = record {
    id = nightly;
    agent = codes "linter";
    schedule = codes "@hourly";
    provider = [];
    base_url = [];
    max_cost = pos 0;
    max_iterations = pos 0;
    enabled = true;
    catchup = [];
    created_at = 3;
  };
  state_path = [];
}

missed_since_found_example :
    (m : ℕ) × (missed_since hourly 9 nightly_entry 5
      ≡ some (record { ref = nightly_ref; last = 5; missed = m }))
    × (5 < m)
    × (m < 9)
    × IsFire hourly (codes "@hourly") 5 m
    × IsOver 9 (m + 1)
missed_since_found_example =
    missed_since_found hourly 9 hourly-IsLater nightly_entry 5 5
      (inr (λ e. absurd (omega arith), refl)) (λ e. absurd (omega arith))
      (λ e. elim e [ inl z ↦ omega arith | inr le ↦ omega arith ])
