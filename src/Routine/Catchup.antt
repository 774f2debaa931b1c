-- ===== src/Routine/Catchup.antt =====
-- routine/catchup.go: the fires that a stopped daemon has missed. Times are numbers, 0 is the zero
-- time. `next_fire` is the cron library's; `load_state` reads the state file, `none` if that fails.
pub mod Latest
use squad.Base.{
  ℕ, zero, suc, List, [], ◌∷◌, Bool, true, false, not, ◌||◌, Option, none, some, ltb, ◌==◌,
  if◌then◌else◌,
}
use squad.Base.Chars.{Chars, same_text}
use squad.Routine.Manifest.{Routine, catchup_skip, effective_catchup}
use squad.Routine.Scope.{Ref}

-- `Entry`, by the fields that are read here.
pub record Entry : Type 0 where
  pub ref : Ref
  pub routine : Routine
  pub state_path : Chars

pub record MissedFire : Type 0 where
  pub ref : Ref
  pub last : ℕ
  pub missed : ℕ

module _ (next_fire : Chars → ℕ → ℕ) (now : ℕ) where
  -- Whether a time is zero or not before `now`.
  abbrev pub is_over : ℕ → Bool
  is_over t = t == 0 || not (ltb t now)

  -- The loop; each round but the last finds a later time before `now`. `none`: the fuel ran out.
  unfoldable pub latest_from : ℕ → Chars → ℕ → Option ℕ
  latest_from zero schedule latest = none
  latest_from (suc f) schedule latest =
      let later = latest_from f schedule (next_fire schedule latest) in
      if is_over (next_fire schedule latest) then some latest else later

  -- The time that what was missed is counted from: the last run, else the creation.
  unfoldable pub anchor_of : Routine → ℕ → ℕ
  anchor_of r last_run = if last_run == 0 then r.created_at else last_run

  -- The body of the loop over the entries, once the state is read; there are fewer fires before `now`
  -- than the fuel.
  unfoldable pub missed_since : Entry → ℕ → Option MissedFire
  unfolding latest_from anchor_of
  missed_since e last_run =
      let anchor = anchor_of e.routine last_run in
      let next = next_fire e.routine.schedule anchor in
      let found : Option MissedFire = elim (latest_from now e.routine.schedule next) [
        | none ↦ none
        | some latest ↦ some (record { ref = e.ref; last = last_run; missed = latest })
      ] in
      if anchor == 0 then none else if is_over next then none else found

  unfoldable pub missed_fire : (Chars → Option ℕ) → Entry → Option MissedFire
  unfolding missed_since effective_catchup
  missed_fire load_state e =
      let found : Option MissedFire = elim (load_state e.state_path) [
        | none ↦ none
        | some last_run ↦ missed_since e last_run
      ] in
      if not e.routine.enabled
      then none
      else if same_text (effective_catchup e.routine) catchup_skip
      then none
      else found

  unfoldable pub find_missed_fires : (Chars → Option ℕ) → List Entry → List MissedFire
  unfolding missed_fire
  find_missed_fires load_state [] = []
  find_missed_fires load_state (e ∷ es) =
      let rest = find_missed_fires load_state es in
      elim (missed_fire load_state e) [ none ↦ rest | some m ↦ m ∷ rest ]
