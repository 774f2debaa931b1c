-- ===== src/Skill/Tests.antt =====
-- The theorems on the skills' directories at a stack of two.
use squad.Base.{[], ◌∷◌}
use squad.Base.Text.{codes}
use squad.Skill.Stack.{FilePath, Entry}

abbrev lint_skill : Entry
lint_skill = record { dir = codes "/skills/lint" }

abbrev test_skill : Entry
test_skill = record { dir = codes "/skills/test" }

abbrev notes : FilePath
notes = codes "skills" ∷ codes "lint" ∷ codes "notes" ∷ []
