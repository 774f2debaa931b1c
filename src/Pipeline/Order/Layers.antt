-- ===== src/Pipeline/Order/Layers.antt =====
-- The tiers of `TopologicalOrder`, stated without its maps, and the rounds that make them.
use squad.Base.{
  ℕ, zero, suc, String, List, [], ◌∷◌, map, ◌≡◌, ◌≢◌, refl, sym, subst, ap, ◌∙◌, inl, inr, Option,
  some, Bool-cases, arith,
}
use squad.Base.Int.{ℤ, pos, negsuc}
use squad.Base.All.{In, All, All-map, Distinct, contains, contains_iff}
use squad.Base.Dict.{MapOrder, lookup, keys, In-keys, lookup_of_In, In-of_lookup}
use squad.Pipeline.{Stage}
use squad.Pipeline.Cycle.Acyclic.{names_of, stage_of_name}
use squad.Pipeline.Order.{Degrees, stage_map, zero_stage, release, zero_keys}
use squad.Pipeline.Order.Count.{stage_map_at}
use squad.Pipeline.Order.Invariant.{undone_zero, zero_undone, waiting, Progress, Progress-step}

zero_keys_sound : (n : String) (m : Degrees) → In n (zero_keys m) → In (n, pos 0) m
unfolding zero_keys
zero_keys_sound n [] i = absurd i
zero_keys_sound n ((k, pos zero) ∷ m) (inl e) = inl (λ i. (e i, pos 0))
zero_keys_sound n ((k, pos zero) ∷ m) (inr i) = inr (zero_keys_sound n m i)
zero_keys_sound n ((k, pos (suc d)) ∷ m) i = inr (zero_keys_sound n m i)
zero_keys_sound n ((k, negsuc d) ∷ m) i = inr (zero_keys_sound n m i)

zero_keys_complete : (n : String) (m : Degrees) → In (n, pos 0) m → In n (zero_keys m)
unfolding zero_keys
zero_keys_complete n [] i = absurd i
zero_keys_complete n ((k, pos zero) ∷ m) (inl e) = inl (ap (λ (q : String × ℤ). q.0) e)
zero_keys_complete n ((k, pos zero) ∷ m) (inr i) = inr (zero_keys_complete n m i)
zero_keys_complete n ((k, pos (suc d)) ∷ m) (inl e) =
    absurd (not_zero (ap (λ (q : String × ℤ). q.1) e))
  where
    not_zero : pos (suc d) ≡ pos 0 → ⊥
    not_zero h = ground arith
zero_keys_complete n ((k, pos (suc d)) ∷ m) (inr i) = zero_keys_complete n m i
zero_keys_complete n ((k, negsuc d) ∷ m) (inl e) =
    absurd (not_zero (ap (λ (q : String × ℤ). q.1) e))
  where
    not_zero : negsuc d ≡ pos 0 → ⊥
    not_zero h = cc
zero_keys_complete n ((k, negsuc d) ∷ m) (inr i) = zero_keys_complete n m i

Distinct-zero_keys : (m : Degrees) → Distinct (keys m) → Distinct (zero_keys m)
unfolding zero_keys
Distinct-zero_keys [] d = tt
Distinct-zero_keys ((k, pos zero) ∷ m) d =
    ((λ i. d.0 (In-keys k (pos 0) m (zero_keys_sound k m i))), Distinct-zero_keys m d.1)
Distinct-zero_keys ((k, pos (suc n)) ∷ m) d = Distinct-zero_keys m d.1
Distinct-zero_keys ((k, negsuc n) ∷ m) d = Distinct-zero_keys m d.1

-- The names scheduled after a tier.
abbrev pub push_names : List Stage → List String → List String
push_names [] over = over
push_names (s ∷ tier) over = push_names tier (s.name ∷ over)

module _ (ss : List Stage) where
  abbrev pub at_name : String → Stage
  at_name = stage_map ss (λ _. zero_stage)

  -- A stage that is not scheduled, though all that it depends on is.
  pub record IsReady (over : List String) (s : Stage) : Type 0 where
    pub stage : In s ss
    pub waits : In s.name over → ⊥
    pub met : All (λ d. In d over) s.depends_on

  -- Each tier holds the ready stages, all of them and each once; at the end every stage is
  -- scheduled.
  abbrev pub Layered : List String → List (List Stage) → Type 0
  Layered over [] = (s : Stage) → In s ss → In s.name over
  Layered over (tier ∷ tiers) =
      (tier ≢ [])
      × All (IsReady over) tier
      × Distinct (names_of tier)
      × ((s : Stage) → IsReady over s → In s tier)
      × Layered (push_names tier over) tiers

  module _ (different : Distinct (names_of ss)) where
    pub release-Progress :
        (tier : List Stage) (over : List String) (m : Degrees)
        → Progress ss over m
        → All (IsReady over) tier
        → Distinct (names_of tier)
        → Progress ss (push_names tier over) (release (waiting ss) tier m)
    unfolding release
    release-Progress [] over m p r d = p
    release-Progress (s ∷ tier) over m p r d =
        release-Progress tier (s.name ∷ over) _
          (Progress-step ss different over m p s r.0.stage r.0.waits r.0.met)
          (still_ready tier r.1 d.0) d.1
      where
        still_ready :
            (ts : List Stage)
            → All (IsReady over) ts
            → (In s.name (names_of ts) → ⊥)
            → All (IsReady (s.name ∷ over)) ts
        still_ready [] h out = tt
        still_ready (t ∷ ts) h out = (
          record {
            stage = h.0.stage;
            waits = λ i. elim i [ inl e ↦ out (inl (sym e)) | inr j ↦ h.0.waits j ];
            met = All-map (λ d i. inr i) t.depends_on h.0.met;
          },
          still_ready ts h.1 (λ i. out (inr i)),
        )

    module _ (order : MapOrder ℤ) (f : ℕ) (over : List String) (m : Degrees)
        (p : Progress ss over m) where
      abbrev pub ready_names : List String
      ready_names = zero_keys (order.visit f m)

      IsReady-at : (s : Stage) → In s ss → lookup s.name m ≡ some (pos 0) → IsReady over s
      IsReady-at s j h =
          let out : In s.name over → ⊥ = λ k. cc (h, p.elsewhere s.name (inl k)) in
          record {
            stage = j;
            waits = out;
            met = undone_zero over s.depends_on (degree (p.at_stage s j out) h);
          }
        where
          degree : {o : Option ℤ} {d : ℕ} → o ≡ some (pos d) → o ≡ some (pos 0) → d ≡ 0
          degree a b = ground arith

      IsReady-sound :
          (n : String) → In n ready_names → IsReady over (at_name n) × ((at_name n).name ≡ n)
      IsReady-sound n i =
          let found : lookup n m ≡ some (pos 0) =
            lookup_of_In n (pos 0) m p.distinct
              ((order.same_entries f m (n, pos 0)).0 (zero_keys_sound n _ i)) in
          elim (Bool-cases (contains (names_of ss) n)) [
            | inl e ↦
                let (s, j, q) = stage_of_name n ss ((contains_iff (names_of ss) n).0 e) in
                let is_s : at_name n ≡ s =
                  subst (λ k. at_name k ≡ s) q (stage_map_at ss _ s different j) in
                subst (λ (t : Stage). IsReady over t × (t.name ≡ n)) (sym is_s)
                  (IsReady-at s j (subst (λ k. lookup k m ≡ some (pos 0)) (sym q) found), q)
            | inr e ↦ absurd (
                cc (
                  found,
                  p.elsewhere n (inr (λ k. ground (arith, (contains_iff (names_of ss) n).1 k))),
                ))
          ]

      ready_key : (s : Stage) → IsReady over s → In s.name ready_names
      ready_key s r = zero_keys_complete s.name _ (
          (order.same_entries f m (s.name, pos 0)).1 (
            In-of_lookup s.name (pos 0) m (
              p.at_stage s r.stage r.waits
              ∙ ap (λ x. some (pos x)) (zero_undone over s.depends_on r.met))))

      tier-IsReady :
          (ns : List String)
          → ((n : String) → In n ns → IsReady over (at_name n) × ((at_name n).name ≡ n))
          → All (IsReady over) (map at_name ns) × (names_of (map at_name ns) ≡ ns)
      tier-IsReady [] h = (tt, refl)
      tier-IsReady (n ∷ ns) h =
          let (readies, same) = tier-IsReady ns (λ k i. h k (inr i)) in
          (((h n (inl refl)).0, readies), λ i. (h n (inl refl)).1 i ∷ same i)

      pub tier_sound : All (IsReady over) (map at_name ready_names)
      tier_sound = (tier-IsReady ready_names IsReady-sound).0

      pub tier_distinct : Distinct (names_of (map at_name ready_names))
      tier_distinct =
          subst Distinct (sym (tier-IsReady ready_names IsReady-sound).1)
            (Distinct-zero_keys (order.visit f m) (order.distinct_keys f m p.distinct))

      In-map : (n : String) (ns : List String) → In n ns → In (at_name n) (map at_name ns)
      In-map n [] i = absurd i
      In-map n (k ∷ ns) (inl e) = inl (ap at_name e)
      In-map n (k ∷ ns) (inr i) = inr (In-map n ns i)

      pub tier_complete : (s : Stage) → IsReady over s → In s (map at_name ready_names)
      tier_complete s r =
          subst (λ t. In t (map at_name ready_names)) (stage_map_at ss _ s different r.stage)
            (In-map s.name ready_names (ready_key s r))
