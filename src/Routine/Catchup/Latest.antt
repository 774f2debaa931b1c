-- ===== src/Routine/Catchup/Latest.antt =====
-- The fire that routine/catchup.go makes up for.
use squad.Base.{
  ◌==◌, ℕ, zero, suc, ◌-◌, ◌≤◌, ◌<◌, ◌≡◌, ◌≢◌, refl, ◌⊎◌, inl, inr, true, false, some, Bool-cases,
  arith,
}
use squad.Base.Chars.{Chars}
use squad.Routine.Catchup.{Entry, is_over, latest_from, anchor_of, missed_since}

-- What the cron library promises: a fire is later than the time that it follows, or there is none.
abbrev pub IsLater : (Chars → ℕ → ℕ) → Type 0
IsLater next_fire =
    (schedule : Chars) (t : ℕ) → (next_fire schedule t ≡ 0) ⊎ (t < next_fire schedule t)

-- The fires of a schedule after a time.
pub data IsFire (next_fire : Chars → ℕ → ℕ) (s : Chars) (since : ℕ) : ℕ → Type 0 where
  first : IsFire next_fire s since (next_fire s since)
  following : {t : ℕ} → IsFire next_fire s since t → IsFire next_fire s since (next_fire s t)

-- The time that what was missed is counted from: that of the last run, or if there was none that at
-- which the routine was created.
abbrev pub CountsFrom : ℕ → ℕ → ℕ → Type 0
CountsFrom created last since = ((last ≡ 0) × (since ≡ created)) ⊎ ((last ≢ 0) × (since ≡ last))

-- There is no fire before `now`.
abbrev pub IsOver : ℕ → ℕ → Type 0
IsOver now t = (t ≡ 0) ⊎ (now ≤ t)

module _ (next_fire : Chars → ℕ → ℕ) (now : ℕ) where
  not_over : (t : ℕ) → is_over next_fire now t ≡ false → (0 < t) × (t < now)
  not_over t h = ground arith

  not_zero :
      (s : Chars) (t : ℕ)
      → (next_fire s t ≡ 0) ⊎ (t < next_fire s t)
      → 0 < next_fire s t
      → t < next_fire s t
  not_zero s t (inl e) h = omega arith
  not_zero s t (inr lt) h = lt

  latest_found :
      IsLater next_fire
      → (f : ℕ) (s : Chars) (since latest : ℕ) → IsFire next_fire s since latest
      → latest < now
      → now - latest ≤ f
      → (m : ℕ) × (latest_from next_fire now f s latest ≡ some m)
        × (latest ≤ m)
        × (m < now)
        × IsFire next_fire s since m
        × IsOver now (next_fire s m)
  unfolding latest_from
  latest_found later zero s since latest fires lt fuel = absurd (omega arith)
  latest_found later (suc f) s since latest fires lt fuel =
      elim (Bool-cases (is_over next_fire now (next_fire s latest))) [
        | inl e ↦ (
          latest,
          rw (e, latest_from) refl,
          omega arith,
          lt,
          fires,
          is_past (next_fire s latest) e,
        )
        | inr e ↦
            let (pos, before) = not_over (next_fire s latest) e in
            let up = not_zero s latest (later s latest) pos in
            let (m, found, le, under, fire, over) =
              latest_found later f s since (next_fire s latest) (following fires) before
                (omega arith) in
            (m, rw (e, latest_from) found, omega arith, under, fire, over)
      ]
    where
      is_past : (t : ℕ) → is_over next_fire now t ≡ true → IsOver now t
      is_past t e = ground arith

  anchor_of_since :
      (e : Entry) (last since : ℕ)
      → CountsFrom e.routine.created_at last since
      → anchor_of next_fire now e.routine last ≡ since
  unfolding anchor_of
  anchor_of_since e last since (inl (never, same)) = ground arith
  anchor_of_since e last since (inr (ran, same)) = ground arith

  -- Where a routine has a time to count from, that of its last run or else of its creation, and its
  -- schedule has a fire since then and before `now`, one missed fire is found: it is a fire of the
  -- schedule since that time and before `now`, and the schedule has no fire between it and `now`.
  pub missed_since_found :
      IsLater next_fire
      → (e : Entry) (last_run since : ℕ) → CountsFrom e.routine.created_at last_run since
      → since ≢ 0
      → (IsOver now (next_fire e.routine.schedule since) → ⊥)
      → (m : ℕ) × (missed_since next_fire now e last_run
          ≡ some (record { ref = e.ref; last = last_run; missed = m }))
        × (since < m)
        × (m < now)
        × IsFire next_fire e.routine.schedule since m
        × IsOver now (next_fire e.routine.schedule m)
  unfolding missed_since
  missed_since_found later e last_run since counts anchored due =
      let s = e.routine.schedule in
      let goes_on = not_ended (next_fire s since) due in
      let (pos, before) = not_over (next_fire s since) goes_on in
      let up = not_zero s since (later s since) pos in
      let (m, found, le, under, fire, over) =
        latest_found later now s since (next_fire s since) first before (omega arith) in
      (
        m,
        rw (anchor_of_since e last_run since counts)
            (rw (there since anchored, goes_on, missed_since) (rw found refl)),
        omega arith,
        under,
        fire,
        over,
      )
    where
      there : (a : ℕ) → a ≢ 0 → (a == 0) ≡ false
      there a h = ground arith

      not_ended : (t : ℕ) → (IsOver now t → ⊥) → is_over next_fire now t ≡ false
      not_ended t h = elim (Bool-cases (is_over next_fire now t)) [
        | inl e ↦ absurd (h (ground arith))
        | inr e ↦ e
      ]
