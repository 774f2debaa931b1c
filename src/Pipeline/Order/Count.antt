-- ===== src/Pipeline/Order/Count.antt =====
-- What the maps of `TopologicalOrder` hold: counts of dependencies.
use squad.Base.{
  ℕ, zero, suc, ◌+◌, ◌-◌, ◌≤◌, String, List, [], ◌∷◌, ◌++◌, ◌≡◌, refl, sym, subst, ap, ◌∙◌, inl,
  inr, false, some, Bool-cases, length, if◌then◌else◌, arith,
}
use squad.Base.Int.{pos}
use squad.Base.Text.{◌==◌, eq_iff, eq_refl}
use squad.Base.All.{In, Distinct}
use squad.Base.Count.{count, count-append}
use squad.Base.Dict.{lookup, keys, lookup-insert, Distinct-insert}
use squad.Pipeline.{Stage}
use squad.Pipeline.Cycle.Acyclic.{names_of, In-names_of}
use squad.Pipeline.Order.{
  Degrees, stage_map, in_degrees, add_dependents, dependents, decrement, decrement_all,
}

decrement_other :
    (n k : String) (m : Degrees) → (k == n) ≡ false → lookup n (decrement k m) ≡ lookup n m
unfolding decrement
decrement_other n k m e = rw lookup-insert (rw e)

decrement_step :
    (n k : String) (m : Degrees) (d : ℕ)
    → lookup n m ≡ some (pos (suc d))
    → lookup n (decrement k m) ≡ some (pos (if k == n then d else suc d))
unfolding decrement
decrement_step n k m d h = elim (Bool-cases (k == n)) [
  | inl e ↦
      let h' : lookup k m ≡ some (pos (suc d)) =
        subst (λ x. lookup x m ≡ some (pos (suc d))) (sym ((eq_iff k n).0 e)) h in
      rw lookup-insert (rw (e, h'))
  | inr e ↦ rw lookup-insert (rw e h)
]

-- The loop takes one off the degree of a name for each time that it stands in the list.
pub decrement_all_at :
    (n : String) (ks : List String) (m : Degrees) (d : ℕ)
    → lookup n m ≡ some (pos d)
    → count n ks ≤ d
    → lookup n (decrement_all ks m) ≡ some (pos (d - count n ks))
unfolding decrement_all count
decrement_all_at n [] m d h le = rw h (ap (λ x. some (pos x)) (omega arith))
decrement_all_at n (k ∷ ks) m zero h le = elim (Bool-cases (k == n)) [
  | inl e ↦ absurd (omega (arith, (rw e at le)))
  | inr e ↦
      decrement_all_at n ks (decrement k m) 0 (decrement_other n k m e ∙ h) (rw e at le)
      ∙ ap (λ x. some (pos x)) (rw e)
]
decrement_all_at n (k ∷ ks) m (suc d) h le =
    decrement_all_at n ks (decrement k m) (if k == n then d else suc d) (decrement_step n k m d h)
      (ground arith)
    ∙ ap (λ x. some (pos x)) (ground arith)

-- It leaves every other name alone.
pub decrement_all_other :
    (n : String) (ks : List String) (m : Degrees)
    → count n ks ≡ 0
    → lookup n (decrement_all ks m) ≡ lookup n m
unfolding decrement_all count
decrement_all_other n [] m h = refl
decrement_all_other n (k ∷ ks) m h = elim (Bool-cases (k == n)) [
  | inl e ↦ absurd (omega (arith, (rw e at h)))
  | inr e ↦ decrement_all_other n ks (decrement k m) (ground arith) ∙ decrement_other n k m e
]

pub Distinct-decrement_all :
    (ks : List String) (m : Degrees) → Distinct (keys m) → Distinct (keys (decrement_all ks m))
unfolding decrement_all
Distinct-decrement_all [] m d = d
Distinct-decrement_all (k ∷ ks) m d =
    Distinct-decrement_all ks (decrement k m) (unfold decrement in Distinct-insert k _ m d)

-- `in_degrees` holds the number of dependencies of each stage, and no other name.
pub in_degrees_other :
    (ss : List Stage) (m : Degrees) (n : String)
    → (In n (names_of ss) → ⊥)
    → lookup n (in_degrees ss m) ≡ lookup n m
unfolding in_degrees
in_degrees_other [] m n out = refl
in_degrees_other (s ∷ ss) m n out =
    in_degrees_other ss _ n (λ i. out (inr i))
    ∙ rw lookup-insert (elim (Bool-cases (s.name == n)) [
      | inl e ↦ absurd (out (inl ((eq_iff s.name n).0 e)))
      | inr e ↦ rw e
    ])

pub in_degrees_at :
    (ss : List Stage) (m : Degrees) (s : Stage)
    → Distinct (names_of ss)
    → In s ss
    → lookup s.name (in_degrees ss m) ≡ some (pos (length s.depends_on))
unfolding in_degrees
in_degrees_at [] m s d i = absurd i
in_degrees_at (t ∷ ss) m s d (inr i) = in_degrees_at ss _ s d.1 i
in_degrees_at (t ∷ ss) m s d (inl p) =
    subst (λ x. lookup x.name (in_degrees (t ∷ ss) m) ≡ some (pos (length x.depends_on))) p
      (in_degrees_other ss _ t.name d.0 ∙ rw lookup-insert (rw eq_refl))

pub Distinct-in_degrees :
    (ss : List Stage) (m : Degrees) → Distinct (keys m) → Distinct (keys (in_degrees ss m))
unfolding in_degrees
Distinct-in_degrees [] m d = d
Distinct-in_degrees (s ∷ ss) m d = Distinct-in_degrees ss _ (Distinct-insert s.name _ m d)

pub stage_map_other :
    (ss : List Stage) (m : String → Stage) (n : String)
    → (In n (names_of ss) → ⊥)
    → stage_map ss m n ≡ m n
unfolding stage_map
stage_map_other [] m n out = refl
stage_map_other (s ∷ ss) m n out =
    stage_map_other ss _ n (λ i. out (inr i)) ∙ elim (Bool-cases (s.name == n)) [
      | inl e ↦ absurd (out (inl ((eq_iff s.name n).0 e)))
      | inr e ↦ rw e
    ]

pub stage_map_at :
    (ss : List Stage) (m : String → Stage) (s : Stage)
    → Distinct (names_of ss)
    → In s ss
    → stage_map ss m s.name ≡ s
unfolding stage_map
stage_map_at [] m s d i = absurd i
stage_map_at (t ∷ ss) m s d (inr i) = stage_map_at ss _ s d.1 i
stage_map_at (t ∷ ss) m s d (inl p) =
    subst (λ x. stage_map (t ∷ ss) m x.name ≡ x) p (stage_map_other ss _ t.name d.0 ∙ rw eq_refl)

count-add_dependents :
    (n name : String) (ds : List String) (m : String → List String) (k : String)
    → count n (add_dependents name ds m k) ≡ count n (m k) + (if name == n then count k ds else 0)
unfolding add_dependents count
count-add_dependents n name [] m k = ground arith
count-add_dependents n name (d ∷ ds) m k = ground (
  arith,
  count-add_dependents n name ds (λ j. if d == j then m j ++ name ∷ [] else m j) k,
  count-append n (m k) (name ∷ []),
)

pub dependents_other :
    (ss : List Stage) (m : String → List String) (n k : String)
    → (In n (names_of ss) → ⊥)
    → count n (dependents ss m k) ≡ count n (m k)
unfolding dependents
dependents_other [] m n k out = refl
dependents_other (s ∷ ss) m n k out =
    dependents_other ss _ n k (λ i. out (inr i))
    ∙ count-add_dependents n s.name s.depends_on m k
    ∙ elim (Bool-cases (s.name == n)) [
      | inl e ↦ absurd (out (inl ((eq_iff s.name n).0 e)))
      | inr e ↦ rw e (omega arith)
    ]

-- A stage stands in the list of a name as often as it depends on it.
pub dependents_at :
    (ss : List Stage) (m : String → List String) (s : Stage) (k : String)
    → Distinct (names_of ss)
    → In s ss
    → count s.name (dependents ss m k) ≡ count s.name (m k) + count k s.depends_on
unfolding dependents
dependents_at [] m s k d i = absurd i
dependents_at (t ∷ ss) m s k d (inr i) =
    dependents_at ss (add_dependents t.name t.depends_on m) s k d.1 i
    ∙ ap (λ x. x + count k s.depends_on)
        (count-add_dependents s.name t.name t.depends_on m k
          ∙ elim (Bool-cases (t.name == s.name)) [
            | inl e ↦ absurd (
                d.0 (
                  subst (λ x. In x (names_of ss)) (sym ((eq_iff t.name s.name).0 e))
                    (In-names_of s ss i)))
            | inr e ↦ rw e (omega arith)
          ])
dependents_at (t ∷ ss) m s k d (inl p) =
    subst (λ x. count x.name (dependents (t ∷ ss) m k) ≡ count x.name (m k) + count k x.depends_on)
      p
      (dependents_other ss _ t.name k d.0
        ∙ count-add_dependents t.name t.name t.depends_on m k
        ∙ rw eq_refl)
