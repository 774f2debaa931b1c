-- ===== src/Base/Occurs.antt =====
-- Membership and repetition by counts: what a reordering of a list keeps.
use squad.Base.{
  suc, ◌≤◌, ◌<◌, ◌≡◌, refl, sym, subst, ◌↔◌, inl, inr, List, [], ◌∷◌, true, Bool-cases, arith,
}
use squad.Base.All.{In, Distinct}
use squad.Base.Multiset.{Eq, count, holds}

module _ {A : Type 0} ⦃e : Eq A⦄ where
  beq_refl : (a : A) → e.beq a a ≡ true
  beq_refl a = (e.beq_iff a a).1 refl

  pub count_iff : (a : A) (xs : List A) → (0 < count a xs) ↔ In a xs
  unfolding count
  count_iff a [] = (λ h. absurd (omega arith), λ i. absurd i)
  count_iff a (x ∷ xs) = elim (Bool-cases (e.beq x a)) [
    | inl p ↦ (λ h. inl ((e.beq_iff x a).0 p), λ i. rw p (omega arith))
    | inr n ↦ (
      λ h. inr ((count_iff a xs).0 (rw n at h)),
      λ i. elim i [
        | inl p ↦ absurd (let k = (e.beq_iff x a).1 p in cc)
        | inr j ↦ rw n ((count_iff a xs).1 j)
      ],
    )
  ]

  pub holds_iff : (a : A) (xs : List A) → (holds a xs ≡ true) ↔ In a xs
  unfolding holds
  holds_iff a [] = (λ h. absurd (cc), λ i. absurd i)
  holds_iff a (x ∷ xs) = elim (Bool-cases (e.beq x a)) [
    | inl p ↦ (λ h. inl ((e.beq_iff x a).0 p), λ i. rw p refl)
    | inr n ↦ (
      λ h. inr ((holds_iff a xs).0 (rw n at h)),
      λ i. elim i [
        | inl p ↦ absurd (let k = (e.beq_iff x a).1 p in cc)
        | inr j ↦ rw n ((holds_iff a xs).1 j)
      ],
    )
  ]

  pub Distinct_count : (xs : List A) → Distinct xs → (a : A) → count a xs ≤ 1
  unfolding count
  Distinct_count [] d a = omega arith
  Distinct_count (x ∷ xs) d a = elim (Bool-cases (e.beq x a)) [
    | inl p ↦
        let once : 0 < count a xs → ⊥ =
          λ h. d.0 (subst (λ y. In y xs) (sym ((e.beq_iff x a).0 p)) ((count_iff a xs).0 h)) in
        rw p (omega arith)
    | inr n ↦ rw n (Distinct_count xs d.1 a)
  ]

  pub Distinct-of_count : (xs : List A) → ((a : A) → count a xs ≤ 1) → Distinct xs
  unfolding count
  Distinct-of_count [] h = tt
  Distinct-of_count (x ∷ xs) h = (
    λ i.
        let k = (count_iff x xs).1 i in
        let two : suc (count x xs) ≤ 1 = rw (beq_refl x) at (h x) in omega arith,
    Distinct-of_count xs (λ a. elim (Bool-cases (e.beq x a)) [
      | inl p ↦ let two : suc (count a xs) ≤ 1 = rw p at (h a) in omega arith
      | inr n ↦ rw n at (h a)
    ]),
  )
