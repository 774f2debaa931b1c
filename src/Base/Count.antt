-- ===== src/Base/Count.antt =====
-- How often a text stands in a list.
use squad.Base.{
  ℕ, suc, ◌+◌, String, List, [], ◌∷◌, ◌++◌, ◌≡◌, refl, inl, inr, Bool-cases, arith, if◌then◌else◌,
}
use squad.Base.Text.{◌==◌, eq_iff}
use squad.Base.All.{In}

-- How often a name stands in a list.
unfoldable pub count : String → List String → ℕ
count k [] = 0
count k (j ∷ js) = if j == k then suc (count k js) else count k js

pub count-append : (k : String) (xs ys : List String) → count k (xs ++ ys) ≡ count k xs + count k ys
unfolding count
count-append k [] ys = omega arith
count-append k (x ∷ xs) ys = ground (arith, count-append k xs ys)

pub count_absent : (k : String) (js : List String) → (In k js → ⊥) → count k js ≡ 0
unfolding count
count_absent k [] out = refl
count_absent k (j ∷ js) out = elim (Bool-cases (j == k)) [
  | inl e ↦ absurd (out (inl ((eq_iff j k).0 e)))
  | inr e ↦ rw e (count_absent k js (λ i. out (inr i)))
]
