-- ===== src/Shard/Claims.antt =====
-- Whether a report names files that it touched, in runner/apply.go, and the check of one shard's
-- report, in runner/shard.go. Letters are folded as in ASCII.
use squad.Base.{
  ℕ, suc, ◌+◌, ◌==◌, List, [], ◌∷◌, Bool, true, false, ◌||◌, Option, none, some, Result, ok, err,
  if◌then◌else◌, drop,
}
use mathlib.Core.List.{reverse, map}
use squad.Tools.CommentGuard.{lines}
use squad.Base.Chars.{Chars, bytes, same_text, has_prefix, lower, trim_space}

-- `strings.Index`
unfoldable pub index_of : Chars → Chars → Option ℕ
unfolding has_prefix
index_of needle [] = if has_prefix [] needle then some 0 else none
index_of needle (c ∷ s) =
    let later = index_of needle s in
    if has_prefix (c ∷ s) needle then some 0 else elim later [ some n ↦ some (suc n) | none ↦ none ]

-- `strings.Trim(rest, " *_`-.|")`
unfoldable pub is_mark : ℕ → Bool
is_mark c = c == b' ' || c == b'*' || c == b'_' || c == b'`' || c == b'-' || c == b'.' || c == b'|'

unfoldable pub drop_marks : Chars → Chars
unfolding is_mark
drop_marks [] = []
drop_marks (c ∷ s) = let rest = drop_marks s in if is_mark c then rest else c ∷ s

unfoldable pub trim_marks : Chars → Chars
unfolding drop_marks
trim_marks s = reverse (drop_marks (reverse (drop_marks s)))

abbrev pub label : Chars
label = bytes "files touched"

unfoldable pub drop_colon : Chars → Chars
drop_colon [] = []
drop_colon (c ∷ s) = if c == b':' then s else c ∷ s

-- What stands behind the label, if the line has it.
unfoldable pub behind_label : Chars → Option Chars
unfolding index_of drop_colon trim_space
behind_label line = elim (index_of label (map lower line)) [
  | none ↦ none
  | some i ↦ some (trim_space (drop_colon (trim_space (drop (i + 13) line))))
]

-- The value may stand on the next line.
unfoldable pub value_of : Chars → List Chars → Chars
unfolding trim_space
value_of [] [] = []
value_of [] (next ∷ below) = trim_space next
value_of (c ∷ s) below = c ∷ s

unfoldable pub names_files : Chars → Bool
names_files [] = false
names_files (c ∷ s) = if same_text (map lower (c ∷ s)) (bytes "none") then false else true

unfoldable pub claims_from : List Chars → Bool
unfolding behind_label value_of names_files trim_marks
claims_from [] = false
claims_from (line ∷ below) =
    let later = claims_from below in
    elim (behind_label line) [
      | none ↦ later
      | some rest ↦ if names_files (trim_marks (value_of rest below)) then true else later
    ]

unfoldable pub claims_specific_files_touched : Chars → Bool
unfolding claims_from lines
claims_specific_files_touched response = claims_from (lines [] response)

abbrev pub fabrication : Chars
fabrication = bytes "report claims files touched but no edit was applied in this shard"

unfoldable pub validate_shard : Chars → Bool → Result Chars Unit
unfolding claims_specific_files_touched
validate_shard report true = ok tt
validate_shard report false =
    if claims_specific_files_touched report then err fabrication else ok tt
