-- ===== src/Tools/CommentGuard.antt =====
-- tools/commentguard.go: edits that may change comments and blank lines only.
pub mod CodeLines
pub mod Kept
use mathlib.Core.List.{reverse}
use squad.Base.{
  ltb→lt, ◌-◌, ltb, Bool-cases, arith, refl, inl, inr, suc, zero, ◌<◌, ◌↔◌, ◌≡◌, ℕ, List, [], ◌∷◌,
  ◌++◌, Bool, true, false, ◌||◌, Option, none, some, ◌==◌, replicate, if◌then◌else◌,
}
use squad.Base.Text.{codes}
use squad.Base.Chars.{Chars, has_prefix, trim_space}
use squad.Base.Multiset.{excess_iff, distinct, excess_of, count, chars_eq, excess}

-- `strings.Split` at a line break; `cur` is the line so far.
unfoldable pub lines : Chars → Chars → List Chars
lines cur [] = cur ∷ []
lines cur (c ∷ s) = elim (c == b'\n') [ true ↦ cur ∷ lines [] s | false ↦ lines (cur ++ c ∷ []) s ]

unfoldable pub drop_blanks : Chars → Chars
drop_blanks [] = []
drop_blanks (c ∷ s) = let rest = drop_blanks s in if c == b' ' || c == b'\t' then rest else c ∷ s

-- What stands before the first `//`; `none` if there is none.
unfoldable pub before_slashes : Chars → Option Chars
unfolding has_prefix
before_slashes [] = none
before_slashes (c ∷ s) =
    let later : Option Chars = elim (before_slashes s) [ none ↦ none | some t ↦ some (c ∷ t) ] in
    if has_prefix (c ∷ s) (codes "//") then some [] else later

unfoldable pub strip_trailing_line_comment : Chars → Chars
unfolding before_slashes drop_blanks
strip_trailing_line_comment line = elim (before_slashes line) [
  | none ↦ line
  | some t ↦ reverse (drop_blanks (reverse t))
]

unfoldable pub is_comment_marker : Chars → Bool
unfolding has_prefix
is_comment_marker trimmed =
    has_prefix trimmed (codes "//")
    || has_prefix trimmed (codes "#")
    || has_prefix trimmed (codes "--")
    || has_prefix trimmed (codes "/*")
    || has_prefix trimmed (codes "*/")
    || has_prefix trimmed (codes "*")

abbrev is_nil : Chars → Bool
is_nil [] = true
is_nil (c ∷ s) = false

-- The lines that `countCodeLines` counts, trimmed.
unfoldable pub code_lines : List Chars → List Chars
unfolding strip_trailing_line_comment is_comment_marker trim_space
code_lines [] = []
code_lines (raw ∷ raws) =
    let rest = code_lines raws in
    let trimmed = trim_space (strip_trailing_line_comment raw) in
    if is_nil trimmed then rest else if is_comment_marker trimmed then rest else trimmed ∷ rest

unfoldable pub code_of : Chars → List Chars
unfolding code_lines lines
code_of text = code_lines (lines [] text)

-- The lines of one text in excess of those of the other, each as often as it is in excess.
unfoldable pub spread : List (Chars × ℕ) → List Chars
spread [] = []
spread ((line, n) ∷ rest) = replicate n line ++ spread rest

-- Added and removed lines.
unfoldable pub code_line_diff : Chars → Chars → List Chars × List Chars
unfolding spread code_of
code_line_diff old_text new_text = (
  spread (excess (code_of new_text) (code_of old_text)),
  spread (excess (code_of old_text) (code_of new_text)),
)

unfoldable pub report : List Chars × List Chars → Option (List Chars × List Chars)
report ([], []) = none
report ([], y ∷ ys) = some ([], y ∷ ys)
report (x ∷ xs, ys) = some (x ∷ xs, ys)

-- `none`: the edit may pass; otherwise the added and the removed lines. The message shows how many
-- there are, and one of them.
unfoldable pub validate_comments_only : Chars → Chars → Option (List Chars × List Chars)
unfolding report
validate_comments_only old_text new_text = report (code_line_diff old_text new_text)

spread_of_nil :
    (more less ks : List Chars) → spread (excess_of more less ks) ≡ [] → excess_of more less ks ≡ []
unfolding spread excess_of
spread_of_nil more less [] h = refl
spread_of_nil more less (k ∷ ks) h = elim (Bool-cases (ltb 0 (count k more - count k less))) [
  | inl p ↦ absurd (not_nil (count k more - count k less) _ (ltb→lt 0 _ p) (rw p at h))
  | inr n ↦ rw n (spread_of_nil more less ks (rw n at h))
]
  where
    not_nil : (n : ℕ) (rest : List Chars) → 0 < n → replicate n k ++ rest ≡ [] → ⊥
    not_nil zero rest lt e = omega arith
    not_nil (suc n) rest lt e = cc

spread_nil_iff :
    (more less : List Chars) → (spread (excess more less) ≡ []) ↔ (excess more less ≡ [])
unfolding excess spread
spread_nil_iff more less = (spread_of_nil more less (distinct more), λ h. rw h)

-- The same lines of code, each as often.
abbrev pub KeepsCode : Chars → Chars → Type 0
KeepsCode old new = (line : Chars) → count line (code_of old) ≡ count line (code_of new)

pair_nil :
    (diff : List Chars × List Chars)
    → (◌≡◌ {A = Option (List Chars × List Chars)} (report diff) none)
      ↔ ((diff.0 ≡ []) × (diff.1 ≡ []))
unfolding report
pair_nil ([], []) = ((λ h. (refl, refl)), λ h. refl)
pair_nil ([], y ∷ ys) = ((λ h. absurd (cc)), λ h. absurd (ground arith))
pair_nil (x ∷ xs, ys) = ((λ h. absurd (cc)), λ h. absurd (ground arith))

-- An edit passes exactly if both texts have the same lines of code, each as often.
pub validate_comments_only_iff :
    (old new : Chars) → (validate_comments_only old new ≡ none) ↔ KeepsCode old new
unfolding validate_comments_only code_line_diff
validate_comments_only_iff old new =
    let added = spread_nil_iff (code_of new) (code_of old) in
    let removed = spread_nil_iff (code_of old) (code_of new) in
    (
      λ h line.
          let (a, r) = (pair_nil (code_line_diff old new)).0 h in
          omega (
            arith,
            (excess_iff (code_of new) (code_of old)).0 (added.0 a) line,
            (excess_iff (code_of old) (code_of new)).0 (removed.0 r) line,
          ),
      λ keeps. (pair_nil (code_line_diff old new)).1 (
        added.1 ((excess_iff (code_of new) (code_of old)).1 (λ line. omega (arith, keeps line))),
        removed.1 ((excess_iff (code_of old) (code_of new)).1 (λ line. omega (arith, keeps line))),
      ),
    )
