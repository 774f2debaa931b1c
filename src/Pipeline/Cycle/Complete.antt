-- ===== src/Pipeline/Cycle/Complete.antt =====
-- On a graph that has a rank a walk meets no cycle.
use squad.Base.{ℕ, zero, suc, ◌≤◌, ◌<◌, String, List, [], ◌∷◌, ◌≡◌, inl, inr, refl, arith}
use squad.Base.Text.{eq_iff}
use squad.Base.All.{In}
use squad.Pipeline.Cycle.{white, gray, Colors, paint, Edges, Walk, cycle, visit_deps, visit}
use squad.Pipeline.Cycle.Frame.{Color-cases, Walk-cases, Framed, visit-Frame}
use squad.Pipeline.Cycle.Sound.{IsRank}

module _ (rank : String → ℕ) where
  -- A walk from below every gray name meets no cycle.
  abbrev pub AvoidsCycle : (Colors → String → Walk) → Type 0
  AvoidsCycle go =
      (c : Colors) (d : String)
      → c d ≡ white
      → ((m : String) → c m ≡ gray → rank d < rank m)
      → (a b : String) → go c d ≡ cycle a b
      → ⊥

  module _ (go : Colors → String → Walk) (framed : Framed go) (avoids : AvoidsCycle go)
      (name : String) where
    visit_deps_avoids :
        (ds : List String) (c : Colors)
        → ((d : String) → In d ds → rank d < rank name)
        → ((m : String) → c m ≡ gray → rank name ≤ rank m)
        → (a b : String) → visit_deps go name ds c ≡ cycle a b
        → ⊥
    unfolding visit_deps
    visit_deps_avoids [] c low above a b h = cc
    visit_deps_avoids (d ∷ ds) c low above a b h = elim (Color-cases (c d)) [
      | inl w ↦ elim (Walk-cases (go c d)) [
        | inl (c1, e) ↦
            visit_deps_avoids ds c1 (λ k i. low k (inr i))
              (λ m g. above m ((framed c c1 d w e).no_new_gray m g)) a b (ground arith)
        | inr (inl (x, y, e)) ↦
            avoids c d w (λ m g. omega (arith, above m g, low d (inl refl))) x y e
        | inr (inr e) ↦ ground arith
      ]
      | inr (inl g) ↦ omega (arith, above d g, low d (inl refl))
      | inr (inr k) ↦ visit_deps_avoids ds c (λ k i. low k (inr i)) above a b (ground arith)
    ]

  pub visit_avoids : (adj : Edges) → IsRank adj rank → (f : ℕ) → AvoidsCycle (visit adj f)
  unfolding visit
  visit_avoids adj ranked zero c n w above a b h = cc
  visit_avoids adj ranked (suc f) c n w above a b h =
      visit_deps_avoids (visit adj f) (visit-Frame adj f) (visit_avoids adj ranked f) n (adj n)
        (paint n gray c) (λ d i. ranked n d i) (λ m g. ground (arith, eq_iff n m, above m)) a b h
