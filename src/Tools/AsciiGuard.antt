-- ===== src/Tools/AsciiGuard.antt =====
-- tools/asciiguard.go: edits that may not bring in characters outside ASCII.
use squad.Base.{
  ℕ, ◌≤◌, ◌<◌, ◌≡◌, refl, ◌↔◌, inl, inr, List, [], ◌∷◌, Option, none, some, ltb, ltb→lt, Bool-cases,
  arith, if◌then◌else◌,
}
use squad.Base.Chars.{Chars}
use squad.Base.Multiset.{nat_eq, count, excess, excess_iff}

-- The characters that `nonASCIICounts` counts.
unfoldable pub non_ascii : Chars → Chars
non_ascii [] = []
non_ascii (c ∷ s) = let rest = non_ascii s in if ltb 127 c then c ∷ rest else rest

-- `none`: the edit may pass; otherwise the characters that it brings in, and how many of each. The
-- source sorts them for its message.
unfoldable pub validate_ascii_only : Chars → Chars → Option (List (ℕ × ℕ))
unfolding non_ascii
validate_ascii_only old_text new_text = elim (excess (non_ascii new_text) (non_ascii old_text)) [
  | [] ↦ none
  | x ∷ xs ↦ some (x ∷ xs)
]

count-non_ascii : (r : ℕ) (s : Chars) → count r (non_ascii s) ≡ (if ltb 127 r then count r s else 0)
unfolding non_ascii count
count-non_ascii r [] = ground arith
count-non_ascii r (c ∷ s) = ground (arith, count-non_ascii r s)

none_iff_nil :
    (xs : List (ℕ × ℕ))
    → (◌≡◌ {A = Option (List (ℕ × ℕ))} (elim xs [ [] ↦ none | y ∷ ys ↦ some (y ∷ ys) ]) none)
      ↔ (xs ≡ [])
none_iff_nil [] = ((λ h. refl), λ h. refl)
none_iff_nil (x ∷ xs) = ((λ h. absurd (cc)), λ h. absurd (cc))

-- No more of any character outside ASCII.
abbrev pub KeepsAscii : Chars → Chars → Type 0
KeepsAscii old new = (r : ℕ) → 127 < r → count r new ≤ count r old

-- An edit passes exactly if the new text has no more of any character outside ASCII.
pub validate_ascii_only_iff :
    (old new : Chars) → (validate_ascii_only old new ≡ none) ↔ KeepsAscii old new
unfolding validate_ascii_only
validate_ascii_only_iff old new = (
  λ h r lt.
      let le =
        (excess_iff (non_ascii new) (non_ascii old)).0
          ((none_iff_nil (excess (non_ascii new) (non_ascii old))).0 h) r in
      ground (arith, le, count-non_ascii r new, count-non_ascii r old),
  λ keeps. (none_iff_nil (excess (non_ascii new) (non_ascii old))).1 (
      (excess_iff (non_ascii new) (non_ascii old)).1 (λ r. elim (Bool-cases (ltb 127 r)) [
        | inl p ↦
            ground (arith, keeps r (ltb→lt 127 r p), count-non_ascii r new, count-non_ascii r old)
        | inr n ↦ ground (arith, count-non_ascii r new, count-non_ascii r old)
      ])),
)
