-- ===== src/Base/All.antt =====
-- Membership and bounded quantifiers over lists, as predicates by recursion.
use squad.Base.{
  ◌≡◌, refl, sym, subst, ◌↔◌, ◌⊎◌, inl, inr, Bool, true, false, ◌||◌, List, [], ◌∷◌, ◌++◌, String,
  arith, Bool-cases,
}
use squad.Base.Text.{◌==◌, eq_iff}

module _ {ℓ} {A : Type ℓ} where
  abbrev pub All {κ} : (A → Type κ) → List A → Type κ
  All P [] = Unit
  All P (x ∷ xs) = P x × All P xs

  pub All-append {κ} :
      (P : A → Type κ) (front back : List A) → All P front → All P back → All P (front ++ back)
  All-append P [] back all_front all_back = all_back
  All-append P (a ∷ front) back all_front all_back =
      let (first, others) = all_front in (first, All-append P front back others all_back)

  pub All-append_left {κ} : (P : A → Type κ) (xs ys : List A) → All P (xs ++ ys) → All P xs
  All-append_left P [] ys h = tt
  All-append_left P (x ∷ xs) ys h = (h.0, All-append_left P xs ys h.1)

  pub All-append_right {κ} : (P : A → Type κ) (xs ys : List A) → All P (xs ++ ys) → All P ys
  All-append_right P [] ys h = h
  All-append_right P (x ∷ xs) ys h = All-append_right P xs ys h.1

  pub All-map {κ κ'} :
      {P : A → Type κ} {Q : A → Type κ'}
      → ((x : A) → P x → Q x)
      → (xs : List A) → All P xs
      → All Q xs
  All-map f [] h = tt
  All-map f (x ∷ xs) h = (f x h.0, All-map f xs h.1)

module _ {A : Type 0} where
  -- `x` stands at some place of the list.
  abbrev pub In : A → List A → Type 0
  In x [] = ⊥
  In x (y ∷ ys) = (y ≡ x) ⊎ In x ys

  pub All-In {κ} : (P : A → Type κ) (xs : List A) (x : A) → All P xs → In x xs → P x
  All-In P [] x h i = absurd i
  All-In P (y ∷ ys) x h (inl e) = subst P e h.0
  All-In P (y ∷ ys) x h (inr i) = All-In P ys x h.1 i

  pub All-of_In {κ} : (P : A → Type κ) (xs : List A) → ((x : A) → In x xs → P x) → All P xs
  All-of_In P [] f = tt
  All-of_In P (y ∷ ys) f = (f y (inl refl), All-of_In P ys (λ x i. f x (inr i)))

  pub In-append_left : (x : A) (xs ys : List A) → In x xs → In x (xs ++ ys)
  In-append_left x [] ys i = absurd i
  In-append_left x (y ∷ xs) ys (inl e) = inl e
  In-append_left x (y ∷ xs) ys (inr i) = inr (In-append_left x xs ys i)

  pub In-append_right : (x : A) (xs ys : List A) → In x ys → In x (xs ++ ys)
  In-append_right x [] ys i = i
  In-append_right x (y ∷ xs) ys i = inr (In-append_right x xs ys i)

  pub In-append : (x : A) (xs ys : List A) → In x (xs ++ ys) → In x xs ⊎ In x ys
  In-append x [] ys i = inr i
  In-append x (y ∷ xs) ys (inl e) = inl (inl e)
  In-append x (y ∷ xs) ys (inr i) = elim (In-append x xs ys i) [
    | inl j ↦ inl (inr j)
    | inr j ↦ inr j
  ]

  -- No value stands at two places.
  abbrev pub Distinct : List A → Type 0
  Distinct [] = Unit
  Distinct (x ∷ xs) = (In x xs → ⊥) × Distinct xs

  pub Distinct-snoc : (xs : List A) (x : A) → Distinct xs → (In x xs → ⊥) → Distinct (xs ++ x ∷ [])
  Distinct-snoc [] x d n = (λ i. i, tt)
  Distinct-snoc (y ∷ xs) x d n = (
    λ i. elim (In-append y xs (x ∷ []) i) [
      | inl j ↦ d.0 j
      | inr (inl p) ↦ n (inl (sym p))
      | inr (inr k) ↦ k
    ],
    Distinct-snoc xs x d.1 (λ i. n (inr i)),
  )

-- A Go `map[string]bool` used as a set, by the list of its keys.
unfoldable pub contains : List String → String → Bool
contains [] k = false
contains (j ∷ js) k = j == k || contains js k

pub contains_iff : (ks : List String) (k : String) → (contains ks k ≡ true) ↔ In k ks
unfolding contains
contains_iff [] k = (λ h. ground arith, λ i. absurd i)
contains_iff (j ∷ js) k = (
  λ h. elim (Bool-cases (j == k)) [
    | inl e ↦ inl ((eq_iff j k).0 e)
    | inr n ↦ inr ((contains_iff js k).0 (rw n at h))
  ],
  λ i. elim i [
    | inl e ↦ ground (arith, eq_iff j k)
    | inr i' ↦ ground (arith, (contains_iff js k).1 i')
  ],
)
