-- ===== src/Pipeline/Order/Schedule.antt =====
-- What the tiers mean for the runner: each stage runs once, behind what it depends on.
use mathlib.Core.List.{flatten}
use mathlib.Core.Option.{some-injective}
use squad.Base.{String, List, [], ◌∷◌, ◌++◌, ◌≡◌, ◌↔◌, refl, sym, subst, ◌∙◌, ◌⊎◌, inl, inr, some}
use squad.Base.Int.{ℤ}
use squad.Base.All.{In, All-In, Distinct, In-append}
use squad.Base.Dict.{MapOrder}
use squad.Pipeline.{Pipeline, Stage}
use squad.Pipeline.Cycle.Acyclic.{names_of, stage_of_name, same_stage}
use squad.Pipeline.Validity.{IsValid}
use squad.Pipeline.Order.{topological_order}
use squad.Pipeline.Order.Layers.{IsReady, Layered, push_names}
use squad.Pipeline.Order.Rounds.{topological_order_layers}

names-append :
    (n : String) (xs ys : List Stage)
    → In n (names_of (xs ++ ys))
    → In n (names_of xs) ⊎ In n (names_of ys)
names-append n [] ys i = inr i
names-append n (x ∷ xs) ys (inl e) = inl (inl e)
names-append n (x ∷ xs) ys (inr i) = elim (names-append n xs ys i) [
  | inl j ↦ inl (inr j)
  | inr j ↦ inr j
]

names-left : (n : String) (xs ys : List Stage) → In n (names_of xs) → In n (names_of (xs ++ ys))
names-left n [] ys i = absurd i
names-left n (x ∷ xs) ys (inl e) = inl e
names-left n (x ∷ xs) ys (inr i) = inr (names-left n xs ys i)

names-right : (n : String) (xs ys : List Stage) → In n (names_of ys) → In n (names_of (xs ++ ys))
names-right n [] ys i = i
names-right n (x ∷ xs) ys i = inr (names-right n xs ys i)

Distinct-append :
    (xs ys : List Stage)
    → Distinct (names_of xs)
    → Distinct (names_of ys)
    → ((n : String) → In n (names_of xs) → In n (names_of ys) → ⊥)
    → Distinct (names_of (xs ++ ys))
Distinct-append [] ys dx dy apart = dy
Distinct-append (x ∷ xs) ys dx dy apart = (
  (λ i. elim (names-append x.name xs ys i) [ inl j ↦ dx.0 j | inr j ↦ apart x.name (inl refl) j ]),
  Distinct-append xs ys dx.1 dy (λ n i j. apart n (inr i) j),
)

-- What is scheduled after a tier was so before, or is in the tier; and the other way round.
pushed :
    (n : String) (tier : List Stage) (over : List String)
    → In n (push_names tier over)
    → In n (names_of tier) ⊎ In n over
pushed n [] over i = inr i
pushed n (s ∷ tier) over i = elim (pushed n tier (s.name ∷ over) i) [
  | inl j ↦ inl (inr j)
  | inr (inl e) ↦ inl (inl e)
  | inr (inr j) ↦ inr j
]

push_old :
    (n : String) (tier : List Stage) (over : List String) → In n over → In n (push_names tier over)
push_old n [] over i = i
push_old n (s ∷ tier) over i = push_old n tier (s.name ∷ over) (inr i)

push_new :
    (n : String) (tier : List Stage) (over : List String)
    → In n (names_of tier)
    → In n (push_names tier over)
push_new n [] over i = absurd i
push_new n (s ∷ tier) over (inl e) = push_old n tier (s.name ∷ over) (inl e)
push_new n (s ∷ tier) over (inr i) = push_new n tier (s.name ∷ over) i

module _ (ss : List Stage) where
  scheduled_sound :
      (over : List String) (tiers : List (List Stage))
      → Layered ss over tiers
      → (s : Stage) → In s (flatten tiers)
      → In s ss × (In s.name over → ⊥)
  unfolding flatten
  scheduled_sound over [] l s i = absurd i
  scheduled_sound over (tier ∷ tiers) l s i = elim (In-append s tier (flatten tiers) i) [
    | inl j ↦
        let r : IsReady ss over s = All-In (IsReady ss over) tier s l.1 j in (r.stage, r.waits)
    | inr j ↦
        let (k, out) = scheduled_sound (push_names tier over) tiers l.4 s j in
        (k, λ h. out (push_old s.name tier over h))
  ]

  scheduled_distinct :
      (over : List String) (tiers : List (List Stage))
      → Layered ss over tiers
      → Distinct (names_of (flatten tiers))
  unfolding flatten
  scheduled_distinct over [] l = tt
  scheduled_distinct over (tier ∷ tiers) l =
      Distinct-append tier (flatten tiers) l.2 (scheduled_distinct (push_names tier over) tiers l.4)
        (λ n i j.
          let (s, k, e) = stage_of_name n (flatten tiers) j in
          (scheduled_sound (push_names tier over) tiers l.4 s k).1
            (subst (λ x. In x (push_names tier over)) (sym e) (push_new n tier over i)))

  scheduled_complete :
      (over : List String) (tiers : List (List Stage))
      → Layered ss over tiers
      → (s : Stage) → In s ss
      → In s.name over ⊎ In s.name (names_of (flatten tiers))
  unfolding flatten
  scheduled_complete over [] l s i = inl (l s i)
  scheduled_complete over (tier ∷ tiers) l s i =
      elim (scheduled_complete (push_names tier over) tiers l.4 s i) [
        | inl j ↦ elim (pushed s.name tier over j) [
          | inl k ↦ inr (names-left s.name tier (flatten tiers) k)
          | inr k ↦ inl k
        ]
        | inr j ↦ inr (names-right s.name tier (flatten tiers) j)
      ]

  deps_before :
      (over : List String) (before : List (List Stage)) (tier : List Stage)
      (after : List (List Stage))
      → Layered ss over (before ++ tier ∷ after)
      → (s : Stage) (d : String) → In s tier
      → In d s.depends_on
      → In d over ⊎ In d (names_of (flatten before))
  unfolding flatten
  deps_before over [] tier after l s d i j =
      inl (All-In (λ k. In k over) s.depends_on d (All-In (IsReady ss over) tier s l.1 i).met j)
  deps_before over (t ∷ before) tier after l s d i j =
      elim (deps_before (push_names t over) before tier after l.4 s d i j) [
        | inl k ↦ elim (pushed d t over k) [
          | inl h ↦ inr (names-left d t (flatten before) h)
          | inr h ↦ inl h
        ]
        | inr k ↦ inr (names-right d t (flatten before) k)
      ]

module _ (order : MapOrder ℤ) (p : Pipeline) (v : IsValid p) where
  layers :
      (tiers : List (List Stage))
      → topological_order order p.stages ≡ some tiers
      → Layered p.stages [] tiers
  layers tiers h =
      let (found, e, layered) = topological_order_layers order p v in
      subst (Layered p.stages []) (some-injective found tiers (sym e ∙ h)) layered

  -- For a valid pipeline, whatever the order of the map: the tiers hold exactly the stages of the
  -- pipeline, and no name twice.
  pub topological_order_once :
      (tiers : List (List Stage))
      → topological_order order p.stages ≡ some tiers
      → Distinct (names_of (flatten tiers)) × ((s : Stage) → In s (flatten tiers) ↔ In s p.stages)
  topological_order_once tiers h =
      let layered : Layered p.stages [] tiers = layers tiers h in
      (
        scheduled_distinct p.stages [] tiers layered,
        λ s. (
          (λ i. (scheduled_sound p.stages [] tiers layered s i).0),
          λ i. elim (scheduled_complete p.stages [] tiers layered s i) [
            | inl j ↦ absurd j
            | inr j ↦
                let (t, k, e) = stage_of_name s.name (flatten tiers) j in
                subst (λ x. In x (flatten tiers))
                  (same_stage p.stages t s v.distinct
                    (scheduled_sound p.stages [] tiers layered t k).0 i e)
                  k
          ],
        ),
      )

  -- For a valid pipeline, whatever the order of the map: what a stage depends on stands in an
  -- earlier tier.
  pub topological_order_before :
      (before : List (List Stage)) (tier : List Stage) (after : List (List Stage))
      → topological_order order p.stages ≡ some (before ++ tier ∷ after)
      → (s : Stage) (d : String) → In s tier
      → In d s.depends_on
      → In d (names_of (flatten before))
  topological_order_before before tier after h s d i j =
      elim (deps_before p.stages [] before tier after (layers (before ++ tier ∷ after) h) s d i j) [
        | inl k ↦ absurd k
        | inr k ↦ k
      ]
