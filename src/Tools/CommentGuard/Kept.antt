-- ===== src/Tools/CommentGuard/Kept.antt =====
-- What tools/commentguard.go lets pass.
use squad.Base.{◌≡◌, ◌↔◌, List, [], none}
use squad.Base.Chars.{Chars}
use squad.Base.Multiset.{count, chars_eq}
use squad.Tools.CommentGuard.{lines, code_of, validate_comments_only, validate_comments_only_iff}
use squad.Tools.CommentGuard.CodeLines.{CodeLines, code_lines-CodeLines}

-- An edit passes exactly if both texts have the same lines of code, each as often. A line of code is
-- a line up to its first `//` and without the space around it, unless this is empty or begins with
-- `//`, `#`, `--`, `/*`, `*/` or `*`.
pub validate_comments_only-CodeLines :
    (old new : Chars)
    → (before after : List Chars) × CodeLines (lines [] old) before
      × CodeLines (lines [] new) after
      × ((validate_comments_only old new ≡ none)
          ↔ ((line : Chars) → count line before ≡ count line after))
unfolding code_of
validate_comments_only-CodeLines old new = (
  code_of old,
  code_of new,
  code_lines-CodeLines (lines [] old),
  code_lines-CodeLines (lines [] new),
  validate_comments_only_iff old new,
)
