-- ===== src/Pipeline/Cycle/Sound.antt =====
-- A walk that succeeds yields a rank for every name that it has finished.
use squad.Base.{
  ℕ, zero, suc, ◌<◌, String, List, [], ◌∷◌, ◌≡◌, sym, subst, ◌⊎◌, inl, inr, arith, Bool-cases,
  if◌then◌else◌,
}
use squad.Base.Text.{◌==◌, eq_iff}
use squad.Base.All.{In}
use squad.Pipeline.Cycle.{white, gray, black, Colors, paint, Edges, Walk, done, visit_deps, visit}
use squad.Pipeline.Cycle.Frame.{
  Color-cases, Framed, painted, visit_deps_inv, visit-Frame, visit_black,
}

-- Every name ranks above what it depends on.
abbrev pub IsRank : Edges → (String → ℕ) → Type 0
IsRank adj rank = (n d : String) → In d (adj n) → rank d < rank n

-- The black names are ranked below a bound, each above its dependencies, which are black too.
pub record Ranked (adj : Edges) (c : Colors) : Type 0 where
  pub rank : String → ℕ
  pub bound : ℕ
  pub below : (m : String) → c m ≡ black → rank m < bound
  pub falls : (m d : String) → c m ≡ black → In d (adj m) → (c d ≡ black) × (rank d < rank m)

module _ (adj : Edges) where
  Ranked-gray : (n : String) (c : Colors) → c n ≡ white → Ranked adj c → Ranked adj (paint n gray c)
  Ranked-gray n c w r = record {
    rank = r.rank;
    bound = r.bound;
    below = λ m b. ground (arith, eq_iff n m, r.below m);
    falls = λ m d b i. ground (arith, eq_iff n m, eq_iff n d, r.falls m d);
  }

  -- The new rank of a name that is finished now.
  raise : String → ℕ → (String → ℕ) → String → ℕ
  raise n b rank m = if n == m then b else rank m

  module _ (n : String) (c : Colors) (r : Ranked adj c)
      (deps : (d : String) → In d (adj n) → c d ≡ black) where
    Ranked-finish : (c n ≡ black → ⊥) → Ranked adj (paint n black c)
    unfolding raise
    Ranked-finish fresh = record {
      rank = raise n r.bound r.rank;
      bound = suc r.bound;
      below = λ m b. ground (arith, r.below m);
      falls = λ m d b i. elim (Bool-cases (n == m)) [
        | inl e ↦
            let black_dep : c d ≡ black =
              deps d (subst (λ k. In d (adj k)) (sym ((eq_iff n m).0 e)) i) in
            ground (arith, black_dep, eq_iff n m, eq_iff n d, r.below d)
        | inr e ↦ ground (arith, eq_iff n d, r.falls m d)
      ];
    }

    Ranked-black : Ranked adj (paint n black c)
    Ranked-black = elim (Color-cases (c n)) [
      | inl w ↦ Ranked-finish (λ b. cc)
      | inr (inl g) ↦ Ranked-finish (λ b. cc)
      | inr (inr b) ↦ record {
        rank = r.rank;
        bound = r.bound;
        below = λ m h. ground (arith, eq_iff n m, r.below m);
        falls = λ m d h i. ground (arith, eq_iff n m, r.falls m d);
      }
    ]

  abbrev IsSound : (Colors → String → Walk) → Type 0
  IsSound go =
      (c c' : Colors) (d : String) → c d ≡ white → go c d ≡ done c' → Ranked adj c → Ranked adj c'

  abbrev Blackens : (Colors → String → Walk) → Type 0
  Blackens go = (c c' : Colors) (d : String) → go c d ≡ done c' → c' d ≡ black

  module _ (go : Colors → String → Walk) (framed : Framed go) (blackens : Blackens go)
      (sound : IsSound go) (name : String) where
    visit_deps-Ranked :
        (ds : List String) (c c' : Colors)
        → visit_deps go name ds c ≡ done c'
        → ((d : String) → In d (adj name) → In d ds ⊎ (c d ≡ black))
        → Ranked adj c
        → Ranked adj c'
    visit_deps-Ranked [] c c' h left r =
        subst (Ranked adj) (painted go name c c' h)
          (Ranked-black name c r (λ d i. elim (left d i) [ inl k ↦ absurd k | inr b ↦ b ]))
    visit_deps-Ranked (d ∷ ds) c c' h left r = elim (visit_deps_inv go name d ds c c' h) [
      | inl (c1, w, e, rest) ↦
          visit_deps-Ranked ds c1 c' rest (left_after c1 w e) (sound c c1 d w e r)
      | inr (b, rest) ↦ visit_deps-Ranked ds c c' rest (left_black b) r
    ]
      where
        left_black : c d ≡ black → (k : String) → In k (adj name) → In k ds ⊎ (c k ≡ black)
        left_black b k i = elim (left k i) [
          | inl (inl e) ↦ inr (subst (λ j. c j ≡ black) e b)
          | inl (inr j) ↦ inl j
          | inr b' ↦ inr b'
        ]

        left_after :
            (c1 : Colors)
            → c d ≡ white
            → go c d ≡ done c1
            → (k : String) → In k (adj name)
            → In k ds ⊎ (c1 k ≡ black)
        left_after c1 w e k i = elim (left k i) [
          | inl (inl p) ↦ inr (subst (λ j. c1 j ≡ black) p (blackens c c1 d e))
          | inl (inr j) ↦ inl j
          | inr b' ↦ inr ((framed c c1 d w e).keeps_black k b')
        ]

  pub visit-Ranked : (f : ℕ) → IsSound (visit adj f)
  unfolding visit
  visit-Ranked zero c c' n w h r = absurd (cc)
  visit-Ranked (suc f) c c' n w h r =
      visit_deps-Ranked (visit adj f) (visit-Frame adj f) (visit_black adj f) (visit-Ranked f) n
        (adj n) (paint n gray c) c' h (λ d i. inl i) (Ranked-gray n c w r)
