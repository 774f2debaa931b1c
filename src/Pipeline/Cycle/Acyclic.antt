-- ===== src/Pipeline/Cycle/Acyclic.antt =====
-- `detect_cycle` decides whether the dependencies can be ranked.
use squad.Base.{
  ℕ, suc, ◌<◌, String, List, [], ◌∷◌, ◌≡◌, ◌⊎◌, inl, inr, refl, sym, ◌∙◌, ap, arith, length,
  if◌then◌else◌, subst, Bool-cases,
}
use squad.Base.Text.{◌==◌, eq_iff, eq_refl}
use squad.Base.All.{In, All, All-In, All-of_In, Distinct}
use squad.Pipeline.{Stage}
use squad.Pipeline.Cycle.{
  white, gray, black, Colors, Edges, adjacency, done, exhausted, visit, visit_all, detect_cycle,
}
use squad.Pipeline.Cycle.Frame.{Frame, Color-cases, Walk-cases, visit-Frame, visit_black}
use squad.Pipeline.Cycle.Sound.{IsRank, Ranked, visit-Ranked}
use squad.Pipeline.Cycle.Complete.{visit_avoids}
use squad.Pipeline.Cycle.Fuel.{whites, whites_mono, Covers, visit-IsTotal}

abbrev pub names_of : List Stage → List String
names_of [] = []
names_of (s ∷ ss) = s.name ∷ names_of ss

-- The stages can be ranked so that each stands above what it depends on.
abbrev pub RanksAbove : List Stage → (String → ℕ) → Type 0
RanksAbove ss rank = All (λ s. All (λ d. rank d < rank s.name) s.depends_on) ss

abbrev pub IsAcyclic : List Stage → Type 0
IsAcyclic ss = (rank : String → ℕ) × RanksAbove ss rank

pub In-names_of : (s : Stage) (ss : List Stage) → In s ss → In s.name (names_of ss)
In-names_of s (t ∷ ss) (inl e) = inl (ap (λ (x : Stage). x.name) e)
In-names_of s (t ∷ ss) (inr i) = inr (In-names_of s ss i)
In-names_of s [] i = absurd i

pub stage_of_name :
    (n : String) (ss : List Stage) → In n (names_of ss) → (s : Stage) × In s ss × (s.name ≡ n)
stage_of_name n [] i = absurd i
stage_of_name n (t ∷ ss) (inl e) = (t, inl refl, e)
stage_of_name n (t ∷ ss) (inr i) = let (s, j, e) = stage_of_name n ss i in (s, inr j, e)

pub same_stage :
    (ss : List Stage) (s t : Stage)
    → Distinct (names_of ss)
    → In s ss
    → In t ss
    → s.name ≡ t.name
    → s ≡ t
same_stage [] s t d i j e = absurd i
same_stage (u ∷ ss) s t d (inl p) (inl q) e = sym p ∙ q
same_stage (u ∷ ss) s t d (inr i) (inr j) e = same_stage ss s t d.1 i j e
same_stage (u ∷ ss) s t d (inl p) (inr j) e = absurd (
    d.0 (
      subst (λ k. In k (names_of ss)) (sym e ∙ ap (λ (x : Stage). x.name) (sym p))
        (In-names_of t ss j)))
same_stage (u ∷ ss) s t d (inr i) (inl q) e = absurd (
    d.0 (
      subst (λ k. In k (names_of ss)) (e ∙ ap (λ (x : Stage). x.name) (sym q))
        (In-names_of s ss i)))

-- The edges of a name are those of a stage that has it, or the ones given at the start.
adjacency_origin :
    (ss : List Stage) (e : Edges) (n : String)
    → ((s : Stage) × In s ss × (s.name ≡ n) × (adjacency ss e n ≡ s.depends_on))
      ⊎ (adjacency ss e n ≡ e n)
unfolding adjacency
adjacency_origin [] e n = inr refl
adjacency_origin (s ∷ ss) e n =
    elim (adjacency_origin ss (λ m. if s.name == m then s.depends_on else e m) n) [
      | inl (t, i, p, q) ↦ inl (t, inr i, p, q)
      | inr q ↦ elim (Bool-cases (s.name == n)) [
        | inl h ↦ inl (s, inl refl, (eq_iff s.name n).0 h, rw h at q)
        | inr h ↦ inr (rw h at q)
      ]
    ]

adjacency_outside :
    (ss : List Stage) (e : Edges) (n : String) → (In n (names_of ss) → ⊥) → adjacency ss e n ≡ e n
adjacency_outside ss e n out = elim (adjacency_origin ss e n) [
  | inl (t, i, p, q) ↦ absurd (out (subst (λ k. In k (names_of ss)) p (In-names_of t ss i)))
  | inr q ↦ q
]

adjacency_at :
    (ss : List Stage) (e : Edges) (s : Stage)
    → Distinct (names_of ss)
    → In s ss
    → adjacency ss e s.name ≡ s.depends_on
unfolding adjacency
adjacency_at [] e s d i = absurd i
adjacency_at (t ∷ ss) e s d (inr i) = adjacency_at ss _ s d.1 i
adjacency_at (t ∷ ss) e s d (inl p) =
    subst (λ x. adjacency (t ∷ ss) e x.name ≡ x.depends_on) p
      (adjacency_outside ss _ t.name d.0 ∙ (rw eq_refl))

module _ (adj : Edges) (f : ℕ) where
  visit_all-Ranked :
      (ss : List Stage) (c c' : Colors)
      → ((m : String) → c m ≡ gray → ⊥)
      → Ranked adj c
      → visit_all adj f ss c ≡ done c'
      → Ranked adj c'
        × ((m : String) → c m ≡ black → c' m ≡ black)
        × All (λ s. c' s.name ≡ black) ss
  unfolding visit_all
  visit_all-Ranked [] c c' none_gray r h =
      subst (λ k. Ranked adj k × ((m : String) → c m ≡ black → k m ≡ black) × Unit) (cc)
        (r, (λ m b. b), tt)
  visit_all-Ranked (s ∷ ss) c c' none_gray r h = elim (Color-cases (c s.name)) [
    | inl w ↦ elim (Walk-cases (visit adj f c s.name)) [
      | inl (c1, e) ↦
          let fr : Frame c c1 = visit-Frame adj f c c1 s.name w e in
          let (r', keeps, blacks) =
            visit_all-Ranked ss c1 c' (λ m g. none_gray m (fr.no_new_gray m g))
              (visit-Ranked adj f c c1 s.name w e r) (ground arith) in
          (
            r',
            (λ m b. keeps m (fr.keeps_black m b)),
            (keeps s.name (visit_black adj f c c1 s.name e), blacks),
          )
      | inr (inl (a, b, e)) ↦ absurd (ground arith)
      | inr (inr e) ↦ absurd (ground arith)
    ]
    | inr (inl g) ↦ absurd (none_gray s.name g)
    | inr (inr b) ↦
        let (r', keeps, blacks) = visit_all-Ranked ss c c' none_gray r (ground arith) in
        (r', keeps, (keeps s.name b, blacks))
  ]

  -- From colours with no gray, the loop finishes on a graph with a rank, if the fuel suffices.
  visit_all_done :
      (ns : List String) (rank : String → ℕ)
      → IsRank adj rank
      → Covers ns adj
      → (ss : List Stage) (c : Colors) → ((m : String) → c m ≡ gray → ⊥)
      → whites ns c < f
      → (c' : Colors) × (visit_all adj f ss c ≡ done c')
  unfolding visit_all
  visit_all_done ns rank ranked cover [] c none_gray lt = (c, refl)
  visit_all_done ns rank ranked cover (s ∷ ss) c none_gray lt = elim (Color-cases (c s.name)) [
    | inl w ↦ elim (Walk-cases (visit adj f c s.name)) [
      | inl (c1, e) ↦
          let fr : Frame c c1 = visit-Frame adj f c c1 s.name w e in
          let (c', q) =
            visit_all_done ns rank ranked cover ss c1 (λ m g. none_gray m (fr.no_new_gray m g))
              (omega (arith, whites_mono ns c c1 fr.no_new_white)) in
          (c', ground arith)
      | inr (inl (a, b, e)) ↦
          absurd (visit_avoids rank adj ranked f c s.name w (λ m g. absurd (none_gray m g)) a b e)
      | inr (inr e) ↦ absurd (visit-IsTotal ns adj cover f c s.name w lt e)
    ]
    | inr (inl g) ↦ absurd (none_gray s.name g)
    | inr (inr b) ↦
        let (c', q) = visit_all_done ns rank ranked cover ss c none_gray lt in (c', ground arith)
  ]

  visit_all_total :
      (ns : List String)
      → Covers ns adj
      → (ss : List Stage) (c : Colors) → whites ns c < f
      → visit_all adj f ss c ≡ exhausted
      → ⊥
  unfolding visit_all
  visit_all_total ns cover [] c lt h = cc
  visit_all_total ns cover (s ∷ ss) c lt h = elim (Color-cases (c s.name)) [
    | inl w ↦ elim (Walk-cases (visit adj f c s.name)) [
      | inl (c1, e) ↦
          visit_all_total ns cover ss c1
            (omega (arith, whites_mono ns c c1 (visit-Frame adj f c c1 s.name w e).no_new_white))
            (ground arith)
      | inr (inl (a, b, e)) ↦ ground arith
      | inr (inr e) ↦ visit-IsTotal ns adj cover f c s.name w lt e
    ]
    | inr (inl g) ↦ visit_all_total ns cover ss c lt (ground arith)
    | inr (inr b) ↦ visit_all_total ns cover ss c lt (ground arith)
  ]

abbrev edges : List Stage → Edges
edges ss = adjacency ss (λ _. [])

Covers-edges : (ss : List Stage) → Covers (names_of ss) (edges ss)
Covers-edges ss n = elim (adjacency_origin ss (λ _. []) n) [
  | inl (t, i, p, q) ↦ inl (subst (λ k. In k (names_of ss)) p (In-names_of t ss i))
  | inr q ↦ inr q
]

IsRank-edges : (ss : List Stage) (rank : String → ℕ) → RanksAbove ss rank → IsRank (edges ss) rank
IsRank-edges ss rank above n d i = elim (adjacency_origin ss (λ _. []) n) [
  | inl (t, j, p, q) ↦
      subst (λ k. rank d < rank k) p
        (All-In _ t.depends_on d (All-In _ ss t above j) (subst (λ ds. In d ds) q i))
  | inr q ↦ absurd (subst (λ ds. In d ds) q i)
]

whites-le-length : (ss : List Stage) → whites (names_of ss) (λ _. white) < suc (length ss)
unfolding whites
whites-le-length [] = omega arith
whites-le-length (s ∷ ss) = omega (arith, whites-le-length ss)

-- A walk that finishes has found no cycle: the stages, their names all different, can be ranked.
pub detect_cycle_sound :
    (ss : List Stage) (c : Colors)
    → Distinct (names_of ss)
    → detect_cycle ss ≡ done c
    → IsAcyclic ss
unfolding detect_cycle
detect_cycle_sound ss c distinct h =
    let (r, keeps, blacks) =
      visit_all-Ranked (edges ss) (suc (length ss)) ss (λ _. white) c (λ m g. cc) start h in
    (
      r.rank,
      All-of_In _ ss (λ s i. All-of_In _ s.depends_on (λ d j.
          (r.falls s.name d (All-In _ ss s blacks i)
            (subst (λ ds. In d ds) (sym (adjacency_at ss _ s distinct i)) j)).1)),
    )
  where
    start : Ranked (edges ss) (λ _. white)
    start = record { rank = λ m. 0; bound = 0; below = λ m b. cc; falls = λ m d b i. absurd (cc) }

-- On stages that can be ranked the walk finishes: it reports no cycle.
pub detect_cycle_complete :
    (ss : List Stage) → IsAcyclic ss → (c : Colors) × (detect_cycle ss ≡ done c)
unfolding detect_cycle
detect_cycle_complete ss (rank, above) =
    visit_all_done (edges ss) (suc (length ss)) (names_of ss) rank (IsRank-edges ss rank above)
      (Covers-edges ss) ss (λ _. white) (λ m g. cc) (whites-le-length ss)

-- Whatever the stages, also with unknown dependencies and repeated names, the fuel suffices.
pub detect_cycle_total : (ss : List Stage) → detect_cycle ss ≡ exhausted → ⊥
unfolding detect_cycle
detect_cycle_total ss h =
    visit_all_total (edges ss) (suc (length ss)) (names_of ss) (Covers-edges ss) ss (λ _. white)
      (whites-le-length ss) h
