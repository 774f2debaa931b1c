-- ===== src/Base/Dict.antt =====
-- A Go map with string keys, as the list of its entries. `range` visits the entries in an order
-- that the language leaves open: see `MapOrder`.
use squad.Base.{
  ℕ, String, ◌≡◌, refl, sym, subst, ap, ◌↔◌, ◌⊎◌, inl, inr, List, [], ◌∷◌, Option, none, some,
  Bool-cases, arith, if◌then◌else◌,
}
use mathlib.Core.Option.{some-injective}
use squad.Base.Text.{◌==◌, eq_iff, eq_refl}
use squad.Base.All.{In, Distinct}

abbrev pub Dict : Type 0 → Type 0
Dict V = List (String × V)

module _ {V : Type 0} where
  unfoldable pub lookup : String → Dict V → Option V
  lookup k [] = none
  lookup k ((j, v) ∷ m) = if j == k then some v else lookup k m

  -- The entry stays where it is, if there is one.
  unfoldable pub insert : String → V → Dict V → Dict V
  insert key new [] = (key, new) ∷ []
  insert key new ((k, old) ∷ rest) =
      let later = insert key new rest in if k == key then (key, new) ∷ rest else (k, old) ∷ later

  unfoldable pub erase : String → Dict V → Dict V
  erase k [] = []
  erase k ((j, v) ∷ m) = let rest = erase k m in if j == k then rest else (j, v) ∷ rest

  abbrev pub keys : Dict V → List String
  keys [] = []
  keys ((k, v) ∷ m) = k ∷ keys m

  pub lookup-insert :
      (key other : String) (new : V) (m : Dict V)
      → lookup other (insert key new m) ≡ (if key == other then some new else lookup other m)
  unfolding lookup insert
  lookup-insert key other new [] = refl
  lookup-insert key other new ((k, old) ∷ rest) =
      ground
        (arith, lookup-insert key other new rest, eq_iff k key, eq_iff key other, eq_iff k other)

  pub lookup-erase :
      (k j : String) (m : Dict V) → lookup j (erase k m) ≡ (if k == j then none else lookup j m)
  unfolding lookup erase
  lookup-erase k j [] = ground arith
  lookup-erase k j ((i, w) ∷ m) =
      ground (arith, eq_iff k j, eq_iff i k, eq_iff i j, lookup-erase k j m)

  In-keys-insert :
      (k j : String) (v : V) (m : Dict V) → In j (keys (insert k v m)) → (k ≡ j) ⊎ In j (keys m)
  unfolding insert
  In-keys-insert k j v [] (inl e) = inl e
  In-keys-insert k j v [] (inr i) = absurd i
  In-keys-insert k j v ((i, w) ∷ m) h = elim (Bool-cases (i == k)) [
    | inl e ↦ elim (rw e at h) [ inl p ↦ inl p | inr q ↦ inr (inr q) ]
    | inr e ↦ elim (rw e at h) [
      | inl p ↦ inr (inl p)
      | inr q ↦ elim (In-keys-insert k j v m q) [ inl p ↦ inl p | inr r ↦ inr (inr r) ]
    ]
  ]

  In-keys-erase : (k j : String) (m : Dict V) → In j (keys (erase k m)) → In j (keys m)
  unfolding erase
  In-keys-erase k j [] h = h
  In-keys-erase k j ((i, w) ∷ m) h = elim (Bool-cases (i == k)) [
    | inl e ↦ inr (In-keys-erase k j m (rw e at h))
    | inr e ↦ elim (rw e at h) [ inl p ↦ inl p | inr q ↦ inr (In-keys-erase k j m q) ]
  ]

  pub Distinct-insert :
      (k : String) (v : V) (m : Dict V) → Distinct (keys m) → Distinct (keys (insert k v m))
  unfolding insert
  Distinct-insert k v [] d = ((λ i. i), tt)
  Distinct-insert k v ((i, w) ∷ m) d = elim (Bool-cases (i == k)) [
    | inl e ↦ rw e (subst (λ j. In j (keys m) → ⊥) ((eq_iff i k).0 e) d.0, d.1)
    | inr e ↦ rw e (
      (λ h. elim (In-keys-insert k i v m h) [ inl p ↦ ground (arith, eq_iff i k) | inr q ↦ d.0 q ]),
      Distinct-insert k v m d.1,
    )
  ]

  pub Distinct-erase : (k : String) (m : Dict V) → Distinct (keys m) → Distinct (keys (erase k m))
  unfolding erase
  Distinct-erase k [] d = tt
  Distinct-erase k ((i, w) ∷ m) d = elim (Bool-cases (i == k)) [
    | inl e ↦ rw e (Distinct-erase k m d.1)
    | inr e ↦ rw e ((λ h. d.0 (In-keys-erase k i m h)), Distinct-erase k m d.1)
  ]

  pub In-keys : (k : String) (v : V) (m : Dict V) → In (k, v) m → In k (keys m)
  In-keys k v [] i = absurd i
  In-keys k v (e ∷ m) (inl p) = inl (ap (λ (q : String × V). q.0) p)
  In-keys k v (e ∷ m) (inr i) = inr (In-keys k v m i)

  pub lookup_of_In :
      (k : String) (v : V) (m : Dict V) → Distinct (keys m) → In (k, v) m → lookup k m ≡ some v
  unfolding lookup
  lookup_of_In k v [] d i = absurd i
  lookup_of_In k v ((j, w) ∷ m) d (inl p) =
      subst (λ (q : String × V). (if q.0 == k then some q.1 else lookup k m) ≡ some v) (sym p)
        (rw eq_refl)
  lookup_of_In k v ((j, w) ∷ m) d (inr i) = elim (Bool-cases (j == k)) [
    | inl e ↦ absurd (d.0 (subst (λ x. In x (keys m)) (sym ((eq_iff j k).0 e)) (In-keys k v m i)))
    | inr e ↦ rw e (lookup_of_In k v m d.1 i)
  ]

  same_entry : {j k : String} {w v : V} → j ≡ k → w ≡ v → ◌≡◌ {A = String × V} (j, w) (k, v)
  same_entry p q = λ i. (p i, q i)

  pub In-of_lookup : (k : String) (v : V) (m : Dict V) → lookup k m ≡ some v → In (k, v) m
  unfolding lookup
  In-of_lookup k v [] h = cc
  In-of_lookup k v ((j, w) ∷ m) h = elim (Bool-cases (j == k)) [
    | inl e ↦ inl (same_entry ((eq_iff j k).0 e) (some-injective w v (rw e at h)))
    | inr e ↦ inr (In-of_lookup k v m (rw e at h))
  ]

-- How `range` orders the entries, one order for each pass: each entry is visited once.
pub record MapOrder (V : Type 0) : Type 0 where
  pub visit : ℕ → Dict V → Dict V
  pub same_entries : (i : ℕ) (m : Dict V) (e : String × V) → In e (visit i m) ↔ In e m
  pub distinct_keys : (i : ℕ) (m : Dict V) → Distinct (keys m) → Distinct (keys (visit i m))

-- The entries in the order of the list.
abbrev pub list_order : (V : Type 0) → MapOrder V
list_order V = record {
  visit = λ i m. m;
  same_entries = λ i m e. ((λ h. h), λ h. h);
  distinct_keys = λ i m d. d;
}
