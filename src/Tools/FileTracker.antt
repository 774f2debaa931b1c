-- ===== src/Tools/FileTracker.antt =====
-- tools/filetracker.go: edits are allowed to files that were read, and have not changed since. Times
-- are numbers, 0 is the zero time; `stat` gives a file's modification time, `none` if that fails.
use squad.Base.{
  ℕ, ◌≤◌, String, false, Option, none, some, ltb, ◌==◌, if◌then◌else◌, ◌≡◌, ◌≢◌, refl, ◌↔◌, arith,
  Bool-cases, inl, inr,
}
use mathlib.Core.Option.{some-injective}
use squad.Base.Text.{◌==◌ as str_eq, eq_iff}
use squad.Base.Dict.{Dict, lookup, insert, lookup-insert}

pub record FileTracker : Type 0 where
  pub reads : Dict ℕ

-- Why an edit is refused.
pub data TrackError : Type 0 where
  file_not_read stale_read : TrackError

-- `now` is `time.Now()`.
unfoldable pub record_read : String → ℕ → FileTracker → FileTracker
record_read path now ft = record { reads = insert path now ft.reads }

unfoldable pub last_read_time : FileTracker → String → ℕ
last_read_time ft path = elim (lookup path ft.reads) [ none ↦ 0 | some t ↦ t ]

-- The test on the times, once both are known.
unfoldable pub staleness : ℕ → Option ℕ → Option TrackError
staleness read_time none = none
staleness read_time (some mod_time) = if ltb read_time mod_time then some stale_read else none

-- Without a tracker every edit is allowed.
unfoldable pub validate_before_edit :
    (String → Option ℕ) → Option FileTracker → String → Option TrackError
unfolding staleness
validate_before_edit stat none path = none
validate_before_edit stat (some ft) path =
    if last_read_time ft path == 0
    then some file_not_read
    else staleness (last_read_time ft path) (stat path)

staleness_iff :
    (read_time : ℕ) (modified : Option ℕ)
    → (staleness read_time modified ≡ none) ↔ ((t : ℕ) → modified ≡ some t → t ≤ read_time)
unfolding staleness
staleness_iff read_time none = ((λ h t e. absurd (cc)), λ h. refl)
staleness_iff read_time (some m) = elim (Bool-cases (ltb read_time m)) [
  | inl e ↦ (
    (λ h. absurd (let k = rw e at h in cc)),
    λ h. let le : m ≤ read_time = h m refl in absurd (ground arith),
  )
  | inr e ↦ ((λ h t p. let same : m ≡ t = some-injective m t p in ground arith), λ h. rw e refl)
]

read_back :
    (path other : String) (now : ℕ) (ft : FileTracker)
    → path ≡ other
    → last_read_time (record_read path now ft) other ≡ now
unfolding last_read_time record_read
read_back path other now ft e =
    rw (lookup-insert path other now ft.reads, last_read_time) (rw ((eq_iff path other).1 e) refl)

other_kept :
    (path other : String) (now : ℕ) (ft : FileTracker)
    → path ≢ other
    → last_read_time (record_read path now ft) other ≡ last_read_time ft other
unfolding last_read_time record_read
other_kept path other now ft ne =
    rw (lookup-insert path other now ft.reads, last_read_time) (rw (differs path other ne) refl)
  where
    differs : (a b : String) → a ≢ b → str_eq a b ≡ false
    differs a b h = ground (arith, eq_iff a b)

-- After a file has been read at a time that is not the zero time, an edit of it is allowed exactly if it
-- has no later modification time; for every other file the answer is as before.
pub validate_before_edit-record_read :
    (stat : String → Option ℕ) (path : String) (now : ℕ) (ft : FileTracker)
    → now ≢ 0
    → ((validate_before_edit stat (some (record_read path now ft)) path ≡ none)
        ↔ ((t : ℕ) → stat path ≡ some t → t ≤ now))
      × ((other : String)
          → path ≢ other
          → validate_before_edit stat (some (record_read path now ft)) other
            ≡ validate_before_edit stat (some ft) other)
unfolding validate_before_edit
validate_before_edit-record_read stat path now ft later = (
  rw (read_back path path now ft refl) (rw (there now later) (staleness_iff now (stat path))),
  λ other ne. rw (other_kept path other now ft ne) refl,
)
  where
    there : (a : ℕ) → a ≢ 0 → (a == 0) ≡ false
    there a h = ground arith
