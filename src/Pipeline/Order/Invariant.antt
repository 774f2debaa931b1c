-- ===== src/Pipeline/Order/Invariant.antt =====
-- The state of `TopologicalOrder` between two steps, for the names scheduled so far.
use squad.Base.{
  ℕ, suc, ◌+◌, String, List, [], ◌∷◌, ◌≡◌, refl, sym, subst, ap, ◌∙◌, ◌⊎◌, inl, inr, false, none,
  some, Bool-cases, length, if◌then◌else◌, arith,
}
use squad.Base.Int.{pos}
use squad.Base.Text.{◌==◌, eq_iff}
use squad.Base.All.{In, All, All-In, All-map, Distinct, contains, contains_iff}
use squad.Base.Count.{count, count_absent}
use squad.Base.Dict.{lookup, erase, keys, lookup-erase, Distinct-erase}
use squad.Pipeline.{Stage}
use squad.Pipeline.Cycle.Acyclic.{names_of, stage_of_name, same_stage}
use squad.Pipeline.Order.{Degrees, in_degrees, dependents, decrement_all}
use squad.Pipeline.Order.Count.{
  decrement_all_at, decrement_all_other, Distinct-decrement_all, in_degrees_at, in_degrees_other,
  Distinct-in_degrees, dependents_at, dependents_other,
}

-- How many of the dependencies are not scheduled yet.
unfoldable pub undone : List String → List String → ℕ
undone over [] = 0
undone over (d ∷ ds) = if contains over d then undone over ds else suc (undone over ds)

pub undone-nil : (ds : List String) → undone [] ds ≡ length ds
unfolding undone contains
undone-nil [] = refl
undone-nil (d ∷ ds) = ap suc (undone-nil ds)

-- Scheduling one more name takes off as many as there are of it.
pub undone-cons :
    (n : String) (over ds : List String)
    → contains over n ≡ false
    → undone over ds ≡ undone (n ∷ over) ds + count n ds
unfolding undone count contains
undone-cons n over [] h = omega arith
undone-cons n over (d ∷ ds) h = ground (arith, undone-cons n over ds h, eq_iff n d, eq_iff d n)

pub undone_zero : (over ds : List String) → undone over ds ≡ 0 → All (λ d. In d over) ds
unfolding undone
undone_zero over [] h = tt
undone_zero over (d ∷ ds) h = elim (Bool-cases (contains over d)) [
  | inl e ↦ ((contains_iff over d).0 e, undone_zero over ds (rw e at h))
  | inr e ↦ absurd (omega (arith, (rw e at h)))
]

pub zero_undone : (over ds : List String) → All (λ d. In d over) ds → undone over ds ≡ 0
unfolding undone
zero_undone over [] h = refl
zero_undone over (d ∷ ds) h = rw ((contains_iff over d).1 h.0) (zero_undone over ds h.1)

module _ (ss : List Stage) where
  abbrev pub waiting : String → List String
  waiting = dependents ss (λ _. [])

  -- `over`: the names scheduled so far.
  pub record Progress (over : List String) (m : Degrees) : Type 0 where
    pub distinct : Distinct (keys m)
    pub at_stage :
        (s : Stage)
        → In s ss
        → (In s.name over → ⊥)
        → lookup s.name m ≡ some (pos (undone over s.depends_on))
    pub elsewhere : (n : String) → In n over ⊎ (In n (names_of ss) → ⊥) → lookup n m ≡ none
    pub closed : (s : Stage) → In s ss → In s.name over → All (λ d. In d over) s.depends_on

  module _ (different : Distinct (names_of ss)) where
    pub Progress-start : Progress [] (in_degrees ss [])
    unfolding lookup
    Progress-start = record {
      distinct = Distinct-in_degrees ss [] tt;
      at_stage = λ s i out. rw undone-nil (in_degrees_at ss [] s different i);
      elsewhere = λ n h. elim h [ inl i ↦ absurd i | inr out ↦ in_degrees_other ss [] n out ];
      closed = λ s i h. absurd h;
    }

    count-waiting :
        (t : Stage) → In t ss → (k : String) → count t.name (waiting k) ≡ count k t.depends_on
    unfolding count
    count-waiting t j k = omega (arith, dependents_at ss (λ _. []) t k different j)

    differ : {k : String} (n : String) → (k == n) ≡ false → k ≡ n → ⊥
    differ {k} n e q = ground (arith, eq_iff k n)

    module _ (over : List String) (m : Degrees) (p : Progress over m) (s : Stage) (i : In s ss)
        (out : In s.name over → ⊥) (ready : All (λ d. In d over) s.depends_on) where
      ready_absent : (ds : List String) → All (λ d. In d over) ds → count s.name ds ≡ 0
      ready_absent ds h = count_absent s.name ds (λ j. out (All-In (λ d. In d over) ds s.name h j))

      not_in : contains over s.name ≡ false
      not_in = elim (Bool-cases (contains over s.name)) [
        | inl e ↦ absurd (out ((contains_iff over s.name).0 e))
        | inr e ↦ e
      ]

      step_at :
          (t : Stage)
          → In t ss
          → (In t.name (s.name ∷ over) → ⊥)
          → lookup t.name (decrement_all (waiting s.name) (erase s.name m))
            ≡ some (pos (undone (s.name ∷ over) t.depends_on))
      step_at t j away =
          let taken : count t.name (waiting s.name) ≡ count s.name t.depends_on =
            count-waiting t j s.name in
          let before : lookup t.name (erase s.name m) ≡ some (pos (undone over t.depends_on)) =
            rw lookup-erase (elim (Bool-cases (s.name == t.name)) [
              | inl e ↦ absurd (away (inl ((eq_iff s.name t.name).0 e)))
              | inr e ↦ rw e (p.at_stage t j (λ k. away (inr k)))
            ]) in
          let less = undone-cons s.name over t.depends_on not_in in
          decrement_all_at t.name (waiting s.name) (erase s.name m) (undone over t.depends_on)
            before (omega (arith, taken, less))
          ∙ ap (λ x. some (pos x)) (omega (arith, taken, less))

      waits_at :
          (t : Stage) → In t ss → In t.name (s.name ∷ over) → count t.name (waiting s.name) ≡ 0
      waits_at t j (inl e) =
          count-waiting t j s.name
          ∙ subst (λ (x : Stage). count s.name x.depends_on ≡ 0) (same_stage ss s t different i j e)
              (ready_absent s.depends_on ready)
      waits_at t j (inr k) = count-waiting t j s.name ∙ ready_absent t.depends_on (p.closed t j k)

      -- Nothing that waits for `s` is scheduled, or is no stage.
      nobody_waits :
          (n : String)
          → In n (s.name ∷ over) ⊎ (In n (names_of ss) → ⊥)
          → count n (waiting s.name) ≡ 0
      nobody_waits n h = elim (Bool-cases (contains (names_of ss) n)) [
        | inl e ↦ elim h [
          | inl k ↦
              let (t, j, q) = stage_of_name n ss ((contains_iff (names_of ss) n).0 e) in
              subst (λ x. count x (waiting s.name) ≡ 0) q
                (waits_at t j (subst (λ x. In x (s.name ∷ over)) (sym q) k))
          | inr k ↦ absurd (k ((contains_iff (names_of ss) n).0 e))
        ]
        | inr e ↦
            unfold count in
            dependents_other ss (λ _. []) n s.name
              (λ k. ground (arith, (contains_iff (names_of ss) n).1 k))
      ]

      pub Progress-step : Progress (s.name ∷ over) (decrement_all (waiting s.name) (erase s.name m))
      Progress-step = record {
        distinct =
            Distinct-decrement_all (waiting s.name) (erase s.name m)
              (Distinct-erase s.name m p.distinct);
        at_stage = step_at;
        elsewhere = λ n h.
            decrement_all_other n (waiting s.name) (erase s.name m) (nobody_waits n h)
            ∙ rw lookup-erase (elim (Bool-cases (s.name == n)) [
              | inl e ↦ rw e
              | inr e ↦ rw e (
                  p.elsewhere n (elim h [
                    | inl k ↦ elim k [ inl q ↦ absurd (differ n e q) | inr k' ↦ inl k' ]
                    | inr k ↦ inr k
                  ]))
            ]);
        closed = λ t j h. elim h [
          | inl e ↦
              subst (λ (x : Stage). All (λ d. In d (s.name ∷ over)) x.depends_on)
                (same_stage ss s t different i j e) (All-map (λ d k. inr k) s.depends_on ready)
          | inr k ↦ All-map (λ d k'. inr k') t.depends_on (p.closed t j k)
        ];
      }
