-- ===== src/Pipeline/Cycle/Frame.antt =====
-- What one run of the walk does to the colours, and the case analysis of its loop.
use squad.Base.{ℕ, zero, suc, String, List, [], ◌∷◌, ◌≡◌, refl, subst, ◌⊎◌, inl, inr, arith}
use squad.Base.Text.{eq_iff, eq_refl}
use squad.Pipeline.Cycle.{
  Color, white, gray, black, Colors, paint, Edges, Walk, done, cycle, exhausted, visit_deps, visit,
}

pub Color-cases : (k : Color) → (k ≡ white) ⊎ (k ≡ gray) ⊎ (k ≡ black)
Color-cases k = ground arith

pub Walk-cases :
    (w : Walk)
    → ((c : Colors) × (w ≡ done c))
      ⊎ ((a : String) × (b : String) × (w ≡ cycle a b))
      ⊎ (w ≡ exhausted)
Walk-cases (done c) = inl (c, refl)
Walk-cases (cycle a b) = inr (inl (a, b, refl))
Walk-cases exhausted = inr (inr refl)

pub paint_self : (n : String) (v : Color) (c : Colors) → paint n v c n ≡ v
paint_self n v c = rw eq_refl

-- One round of the loop that goes on: the dependency was white and its walk succeeded, or it was
-- black.
pub visit_deps_inv :
    (go : Colors → String → Walk) (name d : String) (ds : List String) (c c' : Colors)
    → visit_deps go name (d ∷ ds) c ≡ done c'
    → ((c1 : Colors) × (c d ≡ white) × (go c d ≡ done c1) × (visit_deps go name ds c1 ≡ done c'))
      ⊎ ((c d ≡ black) × (visit_deps go name ds c ≡ done c'))
unfolding visit_deps
visit_deps_inv go name d ds c c' h = elim (Color-cases (c d)) [
  | inl w ↦ elim (Walk-cases (go c d)) [
    | inl (c1, e) ↦ inl (c1, w, e, ground arith)
    | inr (inl (a, b, e)) ↦ absurd (ground arith)
    | inr (inr e) ↦ absurd (ground arith)
  ]
  | inr (inl g) ↦ absurd (ground arith)
  | inr (inr b) ↦ inr (b, ground arith)
]

-- From `c` to `c'` no black was lost, no gray is new, and no white is new.
pub record Frame (c c' : Colors) : Type 0 where
  pub keeps_black : (m : String) → c m ≡ black → c' m ≡ black
  pub no_new_gray : (m : String) → c' m ≡ gray → c m ≡ gray
  pub no_new_white : (m : String) → c' m ≡ white → c m ≡ white

pub Frame-refl : (c : Colors) → Frame c c
Frame-refl c = record { keeps_black = λ m h. h; no_new_gray = λ m h. h; no_new_white = λ m h. h }

pub Frame-trans : {a b c : Colors} → Frame a b → Frame b c → Frame a c
Frame-trans f g = record {
  keeps_black = λ m h. g.keeps_black m (f.keeps_black m h);
  no_new_gray = λ m h. f.no_new_gray m (g.no_new_gray m h);
  no_new_white = λ m h. f.no_new_white m (g.no_new_white m h);
}

Frame-paint_black : (n : String) (c : Colors) → Frame c (paint n black c)
Frame-paint_black n c = record {
  keeps_black = λ m h. ground arith;
  no_new_gray = λ m h. ground arith;
  no_new_white = λ m h. ground arith;
}

-- A walk that succeeds from a white name frames the colours.
abbrev pub Framed : (Colors → String → Walk) → Type 0
Framed go = (c c' : Colors) (d : String) → c d ≡ white → go c d ≡ done c' → Frame c c'

pub painted :
    (go : Colors → String → Walk) (name : String) (c c' : Colors)
    → visit_deps go name [] c ≡ done c'
    → paint name black c ≡ c'
unfolding visit_deps
painted go name c c' h = cc

pub visit_deps-Frame :
    {go : Colors → String → Walk}
    → Framed go
    → (name : String) (ds : List String) (c c' : Colors) → visit_deps go name ds c ≡ done c'
    → Frame c c' × (c' name ≡ black)
visit_deps-Frame {go} fr name [] c c' h =
    subst (λ k. Frame c k × (k name ≡ black)) (painted go name c c' h)
      (Frame-paint_black name c, paint_self name black c)
visit_deps-Frame {go} fr name (d ∷ ds) c c' h = elim (visit_deps_inv go name d ds c c' h) [
  | inl (c1, w, e, r) ↦
      let (f, b) = visit_deps-Frame fr name ds c1 c' r in (Frame-trans (fr c c1 d w e) f, b)
  | inr (b, r) ↦ visit_deps-Frame fr name ds c c' r
]

-- The loop of `visit` starts with its own name gray, and ends with it black.
visit_gray :
    (n : String) (c c' : Colors)
    → c n ≡ white
    → Frame (paint n gray c) c' × (c' n ≡ black)
    → Frame c c'
visit_gray n c c' w (f, b) = record {
  keeps_black = λ m h. f.keeps_black m (ground (arith, eq_iff n m));
  no_new_gray = λ m h. ground (arith, eq_iff n m, f.no_new_gray m h);
  no_new_white = λ m h. ground (arith, eq_iff n m, f.no_new_white m h);
}

pub visit-Frame : (adj : Edges) (f : ℕ) → Framed (visit adj f)
unfolding visit
visit-Frame adj zero c c' n w h = absurd (cc)
visit-Frame adj (suc f) c c' n w h =
    visit_gray n c c' w (visit_deps-Frame (visit-Frame adj f) n (adj n) (paint n gray c) c' h)

pub visit_black :
    (adj : Edges) (f : ℕ) (c c' : Colors) (n : String) → visit adj f c n ≡ done c' → c' n ≡ black
unfolding visit
visit_black adj zero c c' n h = absurd (cc)
visit_black adj (suc f) c c' n h =
    (visit_deps-Frame (visit-Frame adj f) n (adj n) (paint n gray c) c' h).1
