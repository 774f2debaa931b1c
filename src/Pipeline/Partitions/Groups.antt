-- ===== src/Pipeline/Partitions/Groups.antt =====
-- The groups of `splitIntoPartitions`.
use mathlib.Core.List.{flatten}
use mathlib.Core.List.{append_assoc, append-nil}
use squad.Base.{
  ℕ, zero, suc, ◌+◌, ◌-◌, ◌*◌, ◌≤◌, ◌<◌, List, [], ◌∷◌, ◌++◌, ◌≡◌, refl, sym, ap, ◌∙◌, arith,
  length, take, drop, length-append, length-take, length-drop, take-append-drop, ltb, Bool-cases,
  false, inl, inr, ltb→lt,
}
use squad.Base.All.{All, All-append, All-map}
use squad.Pipeline.Partitions.{chunks, merge_extra, split_into_partitions, max_partitions}

one_more :
    (c n len less : ℕ)
    → less ≡ suc len - n
    → c * n < less + n
    → (less ≡ 0 → c ≡ 0)
    → suc c * n < suc len + n
one_more c n len less e h none_left = elim (Bool-cases (ltb 0 less)) [
  | inl p ↦ omega (arith, ltb→lt 0 less p)
  | inr p ↦ let gone : c ≡ 0 = none_left (ground arith) in rw gone (omega (arith, e))
]

many_groups : (c n len : ℕ) → c * n < len + n → len ≤ 10 * n → c ≤ 10
many_groups c n len h le = grind arith

module _ {A : Type 0} where
  abbrev pub IsGroup : ℕ → List A → Type 0
  IsGroup n g = (0 < length g) × (length g ≤ n)

  pub flatten-chunks :
      (f n : ℕ) (xs : List A) → 0 < n → length xs ≤ f → flatten (chunks f n xs) ≡ xs
  unfolding chunks flatten
  flatten-chunks zero n [] pos le = refl
  flatten-chunks zero n (x ∷ xs) pos le = absurd (omega arith)
  flatten-chunks (suc f) n [] pos le = refl
  flatten-chunks (suc f) n (x ∷ xs) pos le =
      rw (flatten-chunks f n (drop n (x ∷ xs)) pos (omega (arith, length-drop n (x ∷ xs))))
        (take-append-drop n (x ∷ xs))

  pub chunks-IsGroup : (f n : ℕ) (xs : List A) → 0 < n → All (IsGroup n) (chunks f n xs)
  unfolding chunks
  chunks-IsGroup zero n xs pos = tt
  chunks-IsGroup (suc f) n [] pos = tt
  chunks-IsGroup (suc f) n (x ∷ xs) pos = (
    (omega (arith, length-take n (x ∷ xs)), omega (arith, length-take n (x ∷ xs))),
    chunks-IsGroup f n (drop n (x ∷ xs)) pos,
  )

  flatten-append : (xs ys : List (List A)) → flatten (xs ++ ys) ≡ flatten xs ++ flatten ys
  unfolding flatten
  flatten-append [] ys = refl
  flatten-append (x ∷ xs) ys = simp (flatten-append xs ys, append_assoc)

  flatten-merge_extra : (gs : List (List A)) → flatten (merge_extra gs) ≡ flatten gs
  unfolding merge_extra flatten
  flatten-merge_extra gs = elim (Bool-cases (ltb 10 (length gs))) [
    | inl e ↦ rw e (
        flatten-append (take 9 gs) (flatten (drop 9 gs) ∷ [])
        ∙ ap (λ r. flatten (take 9 gs) ++ r) (append-nil (flatten (drop 9 gs)))
        ∙ sym (flatten-append (take 9 gs) (drop 9 gs))
        ∙ ap flatten (take-append-drop 9 gs))
    | inr e ↦ rw e
  ]

  -- With a positive limit, cutting and merging lose no file, keep the order, and put no file into two groups.
  pub flatten-split_into_partitions :
      (xs : List A) (n : ℕ) → 0 < n → flatten (split_into_partitions xs n) ≡ xs
  unfolding split_into_partitions
  flatten-split_into_partitions xs n pos =
      flatten-merge_extra (chunks (length xs) n xs)
      ∙ flatten-chunks (length xs) n xs pos (omega arith)

  length-merge_extra : (gs : List (List A)) → length (merge_extra gs) ≤ 10
  unfolding merge_extra
  length-merge_extra gs = elim (Bool-cases (ltb 10 (length gs))) [
    | inl e ↦
        rw e (omega (arith, length-append (take 9 gs) (flatten (drop 9 gs) ∷ []), length-take 9 gs))
    | inr e ↦ rw e (ground arith)
  ]

  All-take : (P : List A → Type 0) (k : ℕ) (gs : List (List A)) → All P gs → All P (take k gs)
  All-take P zero gs h = tt
  All-take P (suc k) [] h = tt
  All-take P (suc k) (g ∷ gs) h = (h.0, All-take P k gs h.1)

  All-drop : (P : List A → Type 0) (k : ℕ) (gs : List (List A)) → All P gs → All P (drop k gs)
  All-drop P zero gs h = h
  All-drop P (suc k) [] h = tt
  All-drop P (suc k) (g ∷ gs) h = All-drop P k gs h.1

  abbrev Holds : List A → Type 0
  Holds g = 0 < length g

  flatten-Holds : (gs : List (List A)) → 0 < length gs → All Holds gs → Holds (flatten gs)
  unfolding flatten
  flatten-Holds [] pos h = absurd (omega arith)
  flatten-Holds (g ∷ gs) pos h = omega (arith, length-append g (flatten gs), h.0)

  merge_extra-Holds : (gs : List (List A)) → All Holds gs → All Holds (merge_extra gs)
  unfolding merge_extra
  merge_extra-Holds gs h = elim (Bool-cases (ltb 10 (length gs))) [
    | inl e ↦ rw e (
        All-append Holds (take 9 gs) (flatten (drop 9 gs) ∷ []) (All-take Holds 9 gs h) (
          flatten-Holds (drop 9 gs) (omega (arith, ltb→lt _ _ e, length-drop 9 gs))
              (All-drop Holds 9 gs h),
          tt,
        ))
    | inr e ↦ rw e h
  ]

  -- With a positive limit there are at most ten groups, and none of them is empty.
  pub split_into_partitions_bounds :
      (xs : List A) (n : ℕ)
      → 0 < n
      → (length (split_into_partitions xs n) ≤ max_partitions)
        × All (λ g. 0 < length g) (split_into_partitions xs n)
  unfolding split_into_partitions
  split_into_partitions_bounds xs n pos = (
    length-merge_extra (chunks (length xs) n xs),
    merge_extra-Holds (chunks (length xs) n xs)
        (All-map (λ g k. k.0) (chunks (length xs) n xs) (chunks-IsGroup (length xs) n xs pos)),
  )

  chunks_none : (f n : ℕ) (xs : List A) → length xs ≡ 0 → length (chunks f n xs) ≡ 0
  unfolding chunks
  chunks_none zero n xs e = refl
  chunks_none (suc f) n [] e = refl
  chunks_none (suc f) n (x ∷ xs) e = absurd (omega arith)

  -- A new group begins only where the one before is full.
  length-chunks : (f n : ℕ) (xs : List A) → 0 < n → length (chunks f n xs) * n < length xs + n
  unfolding chunks
  length-chunks zero n xs pos = omega arith
  length-chunks (suc f) n [] pos = omega arith
  length-chunks (suc f) n (x ∷ xs) pos =
      one_more (length (chunks f n (drop n (x ∷ xs)))) n (length xs) (length (drop n (x ∷ xs)))
        (length-drop n (x ∷ xs)) (length-chunks f n (drop n (x ∷ xs)) pos)
        (chunks_none f n (drop n (x ∷ xs)))

  -- With a positive limit and at most ten times as many files, no group is longer than the limit.
  pub split_into_partitions_fits :
      (xs : List A) (n : ℕ)
      → 0 < n
      → length xs ≤ max_partitions * n
      → All (λ g. length g ≤ n) (split_into_partitions xs n)
  unfolding split_into_partitions merge_extra
  split_into_partitions_fits xs n pos le =
      let few : length (chunks (length xs) n xs) ≤ 10 =
        many_groups (length (chunks (length xs) n xs)) n (length xs)
          (length-chunks (length xs) n xs pos) le in
      rw (not_more few)
        (All-map (λ g k. k.1) (chunks (length xs) n xs) (chunks-IsGroup (length xs) n xs pos))
    where
      not_more : {c : ℕ} → c ≤ 10 → ltb 10 c ≡ false
      not_more h = ground arith
