-- ===== src/Routine/Manifest.antt =====
-- routine/manifest.go: the definition of a routine, and what makes it valid.
use squad.Base.{
  Result, ok, err, ◌>>◌, refuse_if, ℕ, ◌-◌, [], ◌∷◌, ◌++◌, Bool, true, false, not, ◌&&◌, ◌||◌,
  length, take, drop, ltb, leb, ◌==◌, if◌then◌else◌,
}
use squad.Base.Int.{ℤ, pos, ltb_ℤ}
use squad.Base.Text.{codes}
use squad.Base.Chars.{Chars, same_text}

abbrev pub catchup_fire_once : Chars
catchup_fire_once = codes "fire-once"

abbrev pub catchup_skip : Chars
catchup_skip = codes "skip"

-- `Routine`, by the fields that the modelled code reads. Times are numbers, 0 is the zero time; costs are
-- whole multiples of a fixed unit.
pub record Routine : Type 0 where
  pub id : Chars
  pub agent : Chars
  pub schedule : Chars
  pub provider : Chars
  pub base_url : Chars
  pub max_cost : ℤ
  pub max_iterations : ℤ
  pub enabled : Bool
  pub catchup : Chars
  pub created_at : ℕ

pub data RoutineError : Type 0 where
  id_required id_too_long id_invalid agent_required schedule_required schedule_invalid :
      RoutineError
  catchup_invalid max_cost_negative max_iterations_negative base_url_required : RoutineError

abbrev pub is_nil : Chars → Bool
is_nil [] = true
is_nil (c ∷ s) = false

abbrev pub is_lower : ℕ → Bool
is_lower c = leb b'a' c && leb c b'z'

abbrev pub is_alnum : ℕ → Bool
is_alnum c = is_lower c || (leb b'0' c && leb c b'9')

-- `[a-z0-9-]*[a-z0-9]` up to the end of the text.
unfoldable pub slug_tail : Chars → Bool
slug_tail [] = false
slug_tail (c ∷ []) = is_alnum c
slug_tail (c ∷ d ∷ s) = (is_alnum c || c == b'-') && slug_tail (d ∷ s)

-- `slugPattern`: what follows the first letter has 63 characters at most.
unfoldable pub is_slug : Chars → Bool
unfolding slug_tail
is_slug [] = false
is_slug (c ∷ []) = is_lower c
is_slug (c ∷ d ∷ s) = is_lower c && leb (length (d ∷ s)) 63 && slug_tail (d ∷ s)

unfoldable pub validate_id : Chars → Result RoutineError (Unit {0})
unfolding is_slug
validate_id s =
    refuse_if (is_nil s) id_required
    >> (refuse_if (ltb 64 (length s)) id_too_long >> refuse_if (not (is_slug s)) id_invalid)

-- `parses` says whether `scheduleParser` takes a schedule.
unfoldable pub validate_schedule : (Chars → Bool) → Chars → Result RoutineError (Unit {0})
validate_schedule parses s =
    refuse_if (is_nil s) schedule_required >> refuse_if (not (parses s)) schedule_invalid

unfoldable pub catchup_ok : Chars → Bool
catchup_ok c = is_nil c || same_text c catchup_fire_once || same_text c catchup_skip

unfoldable pub validate_routine : (Chars → Bool) → Routine → Result RoutineError (Unit {0})
unfolding validate_id validate_schedule catchup_ok
validate_routine parses r =
    validate_id r.id
    >> (refuse_if (is_nil r.agent) agent_required
        >> (validate_schedule parses r.schedule
            >> (refuse_if (not (catchup_ok r.catchup)) catchup_invalid
                >> (refuse_if (ltb_ℤ r.max_cost (pos 0)) max_cost_negative
                    >> (refuse_if (ltb_ℤ r.max_iterations (pos 0)) max_iterations_negative
                        >> refuse_if
                            (same_text r.provider (codes "openai-compat") && is_nil r.base_url)
                            base_url_required)))))

unfoldable pub effective_catchup : Routine → Chars
effective_catchup r = if is_nil r.catchup then catchup_fire_once else r.catchup

abbrev pub yaml : Chars
yaml = codes ".yaml"

unfoldable pub file_name : Chars → Chars
file_name id = id ++ yaml

-- `strings.HasSuffix`
unfoldable pub has_suffix : Chars → Chars → Bool
has_suffix s p = leb (length p) (length s) && same_text (drop (length s - length p) s) p

-- `""` if the name is not that of a manifest.
unfoldable pub id_from_file_name : Chars → Chars
unfolding validate_id has_suffix
id_from_file_name name =
    let id = take (length name - length yaml) name in
    if has_suffix name yaml then elim (validate_id id) [ ok u ↦ id | err e ↦ [] ] else []
