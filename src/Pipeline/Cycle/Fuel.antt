-- ===== src/Pipeline/Cycle/Fuel.antt =====
-- The fuel of the walk suffices: every nested call has one white stage less.
use squad.Base.{
  ℕ, zero, suc, ◌+◌, ◌≤◌, ◌<◌, String, List, [], ◌∷◌, ◌≡◌, ◌⊎◌, inl, inr, arith, subst,
}
use squad.Base.Text.{eq_iff}
use squad.Base.All.{In}
use squad.Pipeline.Cycle.{
  Color, white, gray, black, Colors, paint, Edges, Walk, exhausted, visit_deps, visit,
}
use squad.Pipeline.Cycle.Frame.{Color-cases, Walk-cases, Framed, visit-Frame}

white_one : Color → ℕ
white_one white = 1
white_one gray = 0
white_one black = 0

-- How many of the names are still white.
unfoldable pub whites : List String → Colors → ℕ
unfolding white_one
whites [] c = 0
whites (n ∷ ns) c = white_one (c n) + whites ns c

pub whites_mono :
    (ns : List String) (c c' : Colors)
    → ((m : String) → c' m ≡ white → c m ≡ white)
    → whites ns c' ≤ whites ns c
unfolding whites
whites_mono [] c c' sub = omega arith
whites_mono (n ∷ ns) c c' sub = ground (arith, whites_mono ns c c' sub, sub n)

whites-paint :
    (ns : List String) (n : String) (c : Colors)
    → In n ns
    → c n ≡ white
    → whites ns (paint n gray c) < whites ns c
unfolding whites
whites-paint [] n c i w = absurd i
whites-paint (k ∷ ns) n c (inl e) w =
    ground
      (arith, eq_iff n k, whites_mono ns c (paint n gray c) (λ m h. ground (arith, eq_iff n m)))
whites-paint (k ∷ ns) n c (inr i) w = ground (arith, eq_iff n k, whites-paint ns n c i w)

module _ (ns : List String) where
  abbrev pub IsTotal : ℕ → (Colors → String → Walk) → Type 0
  IsTotal f go = (c : Colors) (d : String) → c d ≡ white → whites ns c < f → go c d ≡ exhausted → ⊥

  visit_deps_total :
      (f : ℕ) (go : Colors → String → Walk)
      → Framed go
      → IsTotal f go
      → (name : String) (ds : List String) (c : Colors) → whites ns c < f
      → visit_deps go name ds c ≡ exhausted
      → ⊥
  unfolding visit_deps
  visit_deps_total f go framed total name [] c lt h = cc
  visit_deps_total f go framed total name (d ∷ ds) c lt h = elim (Color-cases (c d)) [
    | inl w ↦ elim (Walk-cases (go c d)) [
      | inl (c1, e) ↦
          visit_deps_total f go framed total name ds c1
            (omega (arith, whites_mono ns c c1 (framed c c1 d w e).no_new_white)) (ground arith)
      | inr (inl (x, y, e)) ↦ ground arith
      | inr (inr e) ↦ total c d w lt e
    ]
    | inr (inl g) ↦ ground arith
    | inr (inr k) ↦ visit_deps_total f go framed total name ds c lt (ground arith)
  ]

  -- A name outside the list has no edges.
  abbrev pub Covers : Edges → Type 0
  Covers adj = (n : String) → In n ns ⊎ (adj n ≡ [])

  pub visit-IsTotal : (adj : Edges) → Covers adj → (f : ℕ) → IsTotal f (visit adj f)
  unfolding visit visit_deps
  visit-IsTotal adj cover zero c n w lt h = omega arith
  visit-IsTotal adj cover (suc f) c n w lt h = elim (cover n) [
    | inl i ↦
        visit_deps_total f (visit adj f) (visit-Frame adj f) (visit-IsTotal adj cover f) n (adj n)
          (paint n gray c) (omega (arith, whites-paint ns n c i w)) h
    | inr e ↦ cc (subst (λ ds. visit_deps (visit adj f) n ds (paint n gray c) ≡ exhausted) e h)
  ]
