-- ===== src/Skill/Stack/Components.antt =====
-- What the components of a clean path have in common: skill/stack.go and tools/tools.go both clean
-- the paths that they are given.
use squad.Base.{List, [], ◌∷◌, ◌++◌, false, ◌≡◌, Bool-cases, inl, inr}
use squad.Base.All.{All, All-append}
use squad.Base.Chars.{Chars, same_text}
use squad.Skill.Stack.{FilePath, is_nil, dot, dot_dot, drop_last, clean_from}

-- `P` holds of every component that has `Q`, unless it is empty or goes up.
module _ (P Q : Chars → Type 0)
    (joins : (c : Chars) → Q c → is_nil c ≡ false → same_text c dot_dot ≡ false → P c) where
  drop_last-All : (p : FilePath) → All P p → All P (drop_last p)
  unfolding drop_last
  drop_last-All [] a = tt
  drop_last-All (c ∷ []) a = tt
  drop_last-All (c ∷ d ∷ p) a = (a.0, drop_last-All (d ∷ p) a.1)

  pub clean_from-All :
      (p : FilePath) (cs : List Chars) → All P p → All Q cs → All P (clean_from p cs)
  unfolding clean_from
  clean_from-All p [] a b = a
  clean_from-All p (c ∷ cs) a b = elim (Bool-cases (is_nil c)) [
    | inl e ↦ rw (e, clean_from) (clean_from-All p cs a b.1)
    | inr e ↦ elim (Bool-cases (same_text c dot)) [
      | inl d ↦ rw (e, d, clean_from) (clean_from-All p cs a b.1)
      | inr n ↦ elim (Bool-cases (same_text c dot_dot)) [
        | inl u ↦ rw (e, n, u, clean_from) (clean_from-All (drop_last p) cs (drop_last-All p a) b.1)
        | inr d ↦
            rw (e, n, d, clean_from)
              (clean_from-All (p ++ c ∷ []) cs (All-append P p (c ∷ []) a (joins c b.0 e d, tt))
                b.1)
      ]
    ]
  ]
