-- ===== src/Pipeline/Order/Rounds.antt =====
-- The rounds of `TopologicalOrder` on a pipeline without cycles: they end, and leave no stage out.
use squad.Base.{
  List-cases, ℕ, zero, suc, ◌≤◌, ◌<◌, String, List, [], ◌∷◌, map, ◌≡◌, refl, sym, subst, inl, inr,
  true, false, some, Bool-cases, length, if◌then◌else◌, arith,
}
use squad.Base.Int.{ℤ}
use squad.Base.All.{In, All, All-In, All-of_In, Distinct, contains, contains_iff}
use squad.Base.Dict.{MapOrder}
use squad.Pipeline.{Pipeline, Stage}
use squad.Pipeline.Cycle.Acyclic.{names_of, stage_of_name, RanksAbove}
use squad.Pipeline.Validity.{IsValid}
use squad.Pipeline.Validity.References.{ReferencesOk}
use squad.Pipeline.Order.{Degrees, zero_keys, tiers_from, release, topological_order}
use squad.Pipeline.Order.Invariant.{waiting, Progress, Progress-start}
use squad.Pipeline.Order.Layers.{
  IsReady, Layered, push_names, at_name, release-Progress, tier_sound, tier_distinct, tier_complete,
}

-- How many stages are not scheduled.
left_over : List Stage → List String → ℕ
left_over [] over = 0
left_over (s ∷ ss) over =
    if contains over s.name then left_over ss over else suc (left_over ss over)

abbrev Grows : List String → List String → Type 0
Grows over more = (n : String) → In n over → In n more

left_over_mono :
    (ss : List Stage) (over more : List String)
    → Grows over more
    → left_over ss more ≤ left_over ss over
unfolding left_over
left_over_mono [] over more g = omega arith
left_over_mono (s ∷ ss) over more g = elim (Bool-cases (contains over s.name)) [
  | inl e ↦
      rw (e, (contains_iff more s.name).1 (g s.name ((contains_iff over s.name).0 e)))
        (left_over_mono ss over more g)
  | inr e ↦ rw e (ground (arith, left_over_mono ss over more g))
]

left_over_falls :
    (ss : List Stage) (over more : List String) (s : Stage)
    → Grows over more
    → In s ss
    → (In s.name over → ⊥)
    → In s.name more
    → left_over ss more < left_over ss over
unfolding left_over
left_over_falls [] over more s g i out now = absurd i
left_over_falls (t ∷ ss) over more s g (inl p) out now =
    let fresh : contains over t.name ≡ false =
      not_yet (λ k. out (subst (λ (x : Stage). In x.name over) p k)) in
    let here : contains more t.name ≡ true =
      (contains_iff more t.name).1 (subst (λ (x : Stage). In x.name more) (sym p) now) in
    rw (fresh, here) (omega (arith, left_over_mono ss over more g))
  where
    not_yet : (In t.name over → ⊥) → contains over t.name ≡ false
    not_yet h = elim (Bool-cases (contains over t.name)) [
      | inl e ↦ absurd (h ((contains_iff over t.name).0 e))
      | inr e ↦ e
    ]
left_over_falls (t ∷ ss) over more s g (inr i) out now = elim (Bool-cases (contains over t.name)) [
  | inl e ↦
      rw (e, (contains_iff more t.name).1 (g t.name ((contains_iff over t.name).0 e)))
        (left_over_falls ss over more s g i out now)
  | inr e ↦ rw e (ground (arith, left_over_falls ss over more s g i out now))
]

left_over-le : (ss : List Stage) (over : List String) → left_over ss over ≤ length ss
unfolding left_over
left_over-le [] over = omega arith
left_over-le (s ∷ ss) over = ground (arith, left_over-le ss over)

push-Grows : (tier : List Stage) (over : List String) → Grows over (push_names tier over)
push-Grows [] over n i = i
push-Grows (s ∷ tier) over n i = push-Grows tier (s.name ∷ over) n (inr i)

module _ (order : MapOrder ℤ) (stages : String → Stage) (deps : String → List String) (f : ℕ)
    (m : Degrees) where
  round_stop :
      map stages (zero_keys (order.visit f m)) ≡ []
      → tiers_from order stages deps (suc f) m ≡ some []
  unfolding tiers_from
  round_stop e = rw (e, tiers_from)

  round_go :
      (t : Stage) (rest : List Stage) (tiers : List (List Stage))
      → map stages (zero_keys (order.visit f m)) ≡ t ∷ rest
      → tiers_from order stages deps f (release deps (t ∷ rest) m) ≡ some tiers
      → tiers_from order stages deps (suc f) m ≡ some ((t ∷ rest) ∷ tiers)
  unfolding tiers_from
  round_go t rest tiers e h = rw (e, tiers_from) (rw h)

module _ (ss : List Stage) (known : ReferencesOk (names_of ss) ss) (rank : String → ℕ)
    (above : RanksAbove ss rank) where
  -- Where no stage is ready, every stage is scheduled: the stage of least rank would be ready.
  all_scheduled :
      (over : List String)
      → ((s : Stage) → IsReady ss over s → ⊥)
      → (k : ℕ) (s : Stage) → In s ss
      → rank s.name < k
      → In s.name over
  all_scheduled over idle zero s i lt = absurd (omega arith)
  all_scheduled over idle (suc k) s i lt = elim (Bool-cases (contains over s.name)) [
    | inl e ↦ (contains_iff over s.name).0 e
    | inr e ↦ absurd (
        idle s (record {
          stage = i;
          waits = λ j. ground (arith, (contains_iff over s.name).1 j);
          met =
              All-of_In (λ d. In d over) s.depends_on
                (λ d j.
                  let (t, it, q) =
                    stage_of_name d ss (All-In _ s.depends_on d (All-In _ ss s known i) j).0 in
                  let less : rank d < rank s.name =
                    All-In _ s.depends_on d (All-In _ ss s above i) j in
                  subst (λ x. In x over) q
                    (all_scheduled over idle k t it
                      (subst (λ x. rank x < k) (sym q) (omega arith))));
        }))
  ]

  module _ (different : Distinct (names_of ss)) (order : MapOrder ℤ) where
    abbrev tier_of : ℕ → Degrees → List Stage
    tier_of f m = map (at_name ss) (zero_keys (order.visit f m))

    rounds :
        (f : ℕ) (over : List String) (m : Degrees)
        → Progress ss over m
        → left_over ss over < f
        → (tiers : List (List Stage)) × (tiers_from order (at_name ss) (waiting ss) f m
            ≡ some tiers)
          × Layered ss over tiers
    rounds zero over m p lt = absurd (omega arith)
    rounds (suc f) over m p lt = elim (List-cases (tier_of f m)) [
      | inl e ↦ (
        [],
        round_stop order (at_name ss) (waiting ss) f m e,
        λ s i.
            all_scheduled over
              (λ t r. subst (In t) e (tier_complete ss different order f over m p t r))
              (suc (rank s.name)) s i (omega arith),
      )
      | inr (t, rest, e) ↦
          let tier = t ∷ rest in
          let readies : All (IsReady ss over) tier =
            subst (All (IsReady ss over)) e (tier_sound ss different order f over m p) in
          let distinct : Distinct (names_of tier) =
            subst (λ ts. Distinct (names_of ts)) e (tier_distinct ss different order f over m p) in
          let (tiers, q, layered) =
            rounds f (push_names tier over) (release (waiting ss) tier m)
              (release-Progress ss different tier over m p readies distinct)
              (omega (
                arith,
                left_over_falls ss over (push_names tier over) t (push-Grows tier over)
                    readies.0.stage readies.0.waits
                    (push-Grows rest (t.name ∷ over) t.name (inl refl)),
              )) in
          (
            tier ∷ tiers,
            round_go order (at_name ss) (waiting ss) f m t rest tiers e q,
            (
              (λ x. cc),
              readies,
              distinct,
              (λ s r. subst (In s) e (tier_complete ss different order f over m p s r)),
              layered,
            ),
          )
    ]

-- For a valid pipeline the loop ends, whatever the order of the map: each tier holds every stage
-- that is ready at that point and no other, and no stage is left out.
pub topological_order_layers :
    (order : MapOrder ℤ) (p : Pipeline)
    → IsValid p
    → (tiers : List (List Stage)) × (topological_order order p.stages ≡ some tiers)
      × Layered p.stages [] tiers
unfolding topological_order
topological_order_layers order p v =
    let (rank, above) = v.acyclic in
    rounds p.stages v.references rank above v.distinct order (suc (length p.stages)) [] _
      (Progress-start p.stages v.distinct) (omega (arith, left_over-le p.stages []))
