-- ===== src/Base/Multiset.antt =====
-- Go maps that count: how often each value stands in a list, over any type with an equality test.
use squad.Base.{
  ℕ, suc, ◌+◌, ◌-◌, ◌≤◌, ◌<◌, ◌≡◌, refl, subst, ◌↔◌, inl, inr, List, [], ◌∷◌, ◌++◌, Bool, true,
  false, Bool-cases, ltb, ltb→lt, arith, if◌then◌else◌,
}
use squad.Base.{◌==◌ as nat_beq, ==_iff}
use squad.Base.Chars.{Chars, same_text, same_text_iff}
use squad.Base.All.{In}

pub record Eq (A : Type 0) : Type 0 where
  pub beq : A → A → Bool
  pub beq_iff : (a b : A) → (beq a b ≡ true) ↔ (a ≡ b)

instance abbrev pub nat_eq : Eq ℕ
nat_eq = record { beq = nat_beq; beq_iff = ==_iff }

instance abbrev pub chars_eq : Eq Chars
chars_eq = record { beq = same_text; beq_iff = same_text_iff }

module _ {A : Type 0} ⦃e : Eq A⦄ where
  unfoldable pub count : A → List A → ℕ
  count a [] = 0
  count a (b ∷ bs) = if e.beq b a then suc (count a bs) else count a bs

  unfoldable pub holds : A → List A → Bool
  holds a [] = false
  holds a (b ∷ bs) = let rest = holds a bs in if e.beq b a then true else rest

  -- The keys of the map of counts, each once.
  unfoldable pub distinct : List A → List A
  unfolding holds
  distinct [] = []
  distinct (a ∷ as') = let rest = distinct as' in if holds a rest then rest else a ∷ rest

  -- The entries of which the first list has more than the second, with the excess.
  unfoldable pub excess_of : List A → List A → List A → List (A × ℕ)
  excess_of more less [] = []
  excess_of more less (k ∷ ks) =
      let rest = excess_of more less ks in
      let n = count k more - count k less in if ltb 0 n then (k, n) ∷ rest else rest

  unfoldable pub excess : List A → List A → List (A × ℕ)
  unfolding distinct excess_of
  excess more less = excess_of more less (distinct more)

  pub count-append : (a : A) (xs ys : List A) → count a (xs ++ ys) ≡ count a xs + count a ys
  unfolding count
  count-append a [] ys = omega arith
  count-append a (x ∷ xs) ys = ground (arith, count-append a xs ys)

  holds-In : (a : A) (xs : List A) → holds a xs ≡ true → In a xs
  unfolding holds
  holds-In a [] h = cc
  holds-In a (x ∷ xs) h = elim (Bool-cases (e.beq x a)) [
    | inl p ↦ inl ((e.beq_iff x a).0 p)
    | inr n ↦ inr (holds-In a xs (rw n at h))
  ]

  distinct_count : (a : A) (xs : List A) → 0 < count a xs → In a (distinct xs)
  unfolding count distinct
  distinct_count a [] h = omega arith
  distinct_count a (x ∷ xs) h = elim (Bool-cases (holds x (distinct xs))) [
    | inl k ↦ rw k (elim (Bool-cases (e.beq x a)) [
      | inl p ↦ subst (λ y. In y (distinct xs)) ((e.beq_iff x a).0 p) (holds-In x (distinct xs) k)
      | inr n ↦ distinct_count a xs (rw n at h)
    ])
    | inr k ↦ rw k (elim (Bool-cases (e.beq x a)) [
      | inl p ↦ inl ((e.beq_iff x a).0 p)
      | inr n ↦ inr (distinct_count a xs (rw n at h))
    ])
  ]

  excess_of_nil :
      (more less ks : List A) (a : A)
      → excess_of more less ks ≡ []
      → In a ks
      → count a more ≤ count a less
  unfolding excess_of
  excess_of_nil more less [] a h i = absurd i
  excess_of_nil more less (k ∷ ks) a h (inl p) =
      subst (λ x. count x more ≤ count x less) p (ground arith)
  excess_of_nil more less (k ∷ ks) a h (inr i) = excess_of_nil more less ks a (ground arith) i

  nil_excess_of :
      (more less ks : List A)
      → ((a : A) → count a more ≤ count a less)
      → excess_of more less ks ≡ []
  unfolding excess_of
  nil_excess_of more less [] le = refl
  nil_excess_of more less (k ∷ ks) le = ground (arith, le k, nil_excess_of more less ks le)

  -- There is no excess exactly if the second list has each value as often, at least.
  pub excess_iff :
      (more less : List A) → (excess more less ≡ []) ↔ ((a : A) → count a more ≤ count a less)
  unfolding excess
  excess_iff more less = (
    λ h a. elim (Bool-cases (ltb 0 (count a more))) [
      | inl p ↦
          excess_of_nil more less (distinct more) a h
            (distinct_count a more (ltb→lt 0 (count a more) p))
      | inr n ↦ ground arith
    ],
    λ le. nil_excess_of more less (distinct more) le,
  )
