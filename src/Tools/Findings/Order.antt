-- ===== src/Tools/Findings/Order.antt =====
-- The report of tools/findings.go does not depend on the order in which findings come.
use squad.Base.{
  ◌==◌, ◌≡◌, refl, sym, subst, ◌↔◌, ◌⊎◌, inl, inr, List, [], ◌∷◌, true, false, Bool-cases, arith,
  ap,
}
use squad.Base.All.{All, All-map, In, All-In, All-of_In}
use squad.Base.Chars.{Chars, bytes}
use squad.Base.Sort.{text_lt}
use squad.Tools.Findings.{Finding, FindingsStore}
use squad.Tools.Findings.Report.{
  rank, less, insert_finding, sort_findings, report_of, format_markdown,
}

text_lt_trans : (s t u : Chars) → text_lt s t ≡ true → text_lt t u ≡ true → text_lt s u ≡ true
unfolding text_lt
text_lt_trans s t [] h k = absurd (cc)
text_lt_trans s [] (e ∷ u) h k = absurd (cc)
text_lt_trans [] (d ∷ t) (e ∷ u) h k = refl
text_lt_trans (c ∷ s) (d ∷ t) (e ∷ u) h k = ground (arith, text_lt_trans s t u)

text_lt_irrefl : (s : Chars) → text_lt s s ≡ false
unfolding text_lt
text_lt_irrefl [] = refl
text_lt_irrefl (c ∷ s) = ground (arith, text_lt_irrefl s)

less_trans : (f g h : Finding) → less f g ≡ true → less g h ≡ true → less f h ≡ true
unfolding less
less_trans f g h p q = ground (arith, text_lt_trans (bytes f.title) (bytes g.title) (bytes h.title))

less_irrefl : (f : Finding) → less f f ≡ true → ⊥
unfolding less
less_irrefl f p = ground (arith, text_lt_irrefl (bytes f.title))

In-insert_finding :
    (x f : Finding) (gs : List Finding) → In x (insert_finding f gs) ↔ ((f ≡ x) ⊎ In x gs)
unfolding insert_finding
In-insert_finding x f [] = (λ i. i, λ i. i)
In-insert_finding x f (g ∷ gs) = elim (Bool-cases (less f g)) [
  | inl p ↦ rw p (λ i. i, λ i. i)
  | inr n ↦ rw n (
    λ i. elim i [
      | inl e ↦ inr (inl e)
      | inr j ↦ elim ((In-insert_finding x f gs).0 j) [ inl e ↦ inl e | inr k ↦ inr (inr k) ]
    ],
    λ i. elim i [
      | inl e ↦ inr ((In-insert_finding x f gs).1 (inl e))
      | inr (inl e) ↦ inl e
      | inr (inr k) ↦ inr ((In-insert_finding x f gs).1 (inr k))
    ],
  )
]

-- The report lists the findings of the store.
pub In-sort_findings : (x : Finding) (fs : List Finding) → In x (sort_findings fs) ↔ In x fs
unfolding sort_findings
In-sort_findings x [] = (λ i. i, λ i. i)
In-sort_findings x (f ∷ fs) = (
  λ i. elim ((In-insert_finding x f (sort_findings fs)).0 i) [
    | inl e ↦ inl e
    | inr j ↦ inr ((In-sort_findings x fs).0 j)
  ],
  λ i.
      (In-insert_finding x f (sort_findings fs)).1
        (elim i [ inl e ↦ inl e | inr j ↦ inr ((In-sort_findings x fs).1 j) ]),
)

-- Two findings that differ in rank or in title.
abbrev pub Apart : Finding → Finding → Type 0
Apart f g = rank f ≡ rank g → bytes f.title ≡ bytes g.title → ⊥

text_lt_total : (s t : Chars) → text_lt s t ≡ false → text_lt t s ≡ false → s ≡ t
unfolding text_lt
text_lt_total [] [] h k = refl
text_lt_total [] (d ∷ t) h k = absurd (cc)
text_lt_total (c ∷ s) [] h k = absurd (cc)
text_lt_total (c ∷ s) (d ∷ t) h k =
    let heads : c ≡ d = ground arith in
    let tails : s ≡ t = text_lt_total s t (ground arith) (ground arith) in λ i. heads i ∷ tails i

-- The order tells such findings apart.
less_total : (f g : Finding) → Apart f g → less f g ≡ false → less g f ≡ true
unfolding less
less_total f g apart n = elim (Bool-cases (rank f == rank g)) [
  | inl e ↦ elim (Bool-cases (text_lt (bytes g.title) (bytes f.title))) [
    | inl later ↦ ground arith
    | inr neither ↦ absurd (
        apart (ground arith) (text_lt_total (bytes f.title) (bytes g.title) (ground arith) neither))
  ]
  | inr e ↦ ground arith
]

-- No two findings of a store have one rank and one title.
abbrev pub AreApart : List Finding → Type 0
AreApart [] = Unit
AreApart (f ∷ fs) = All (Apart f) fs × AreApart fs

abbrev pub IsSorted : List Finding → Type 0
IsSorted [] = Unit
IsSorted (f ∷ fs) = All (λ g. less f g ≡ true) fs × IsSorted fs

insert_finding-IsSorted :
    (f : Finding) (gs : List Finding)
    → All (Apart f) gs
    → IsSorted gs
    → IsSorted (insert_finding f gs)
unfolding insert_finding
insert_finding-IsSorted f [] a s = (tt, tt)
insert_finding-IsSorted f (g ∷ gs) a s = elim (Bool-cases (less f g)) [
  | inl p ↦ rw p ((p, All-map (λ h q. less_trans f g h p q) gs s.0), s)
  | inr n ↦ rw n (
    All-of_In (λ h. less g h ≡ true) (insert_finding f gs)
        (λ h i. elim ((In-insert_finding h f gs).0 i) [
          | inl e ↦ subst (λ x. less g x ≡ true) e (less_total f g a.0 n)
          | inr j ↦ All-In (λ x. less g x ≡ true) gs h s.0 j
        ]),
    insert_finding-IsSorted f gs a.1 s.1,
  )
]

-- In the report each finding comes before those of lower severity, and of the same severity and a
-- greater title.
pub sort_findings-IsSorted : (fs : List Finding) → AreApart fs → IsSorted (sort_findings fs)
unfolding sort_findings
sort_findings-IsSorted [] a = tt
sort_findings-IsSorted (f ∷ fs) a =
    insert_finding-IsSorted f (sort_findings fs)
      (All-of_In (Apart f) (sort_findings fs)
        (λ g i. All-In (Apart f) fs g a.0 ((In-sort_findings g fs).0 i)))
      (sort_findings-IsSorted fs a.1)

abbrev pub SameFindings : List Finding → List Finding → Type 0
SameFindings fs gs = (x : Finding) → In x fs ↔ In x gs

-- A sorted list is determined by what it holds.
first_same :
    (f g : Finding) (fs gs : List Finding)
    → IsSorted (f ∷ fs)
    → IsSorted (g ∷ gs)
    → SameFindings (f ∷ fs) (g ∷ gs)
    → f ≡ g
first_same f g fs gs s t same = elim ((same f).0 (inl refl)) [
  | inl e ↦ sym e
  | inr i ↦ elim ((same g).1 (inl refl)) [
    | inl e ↦ e
    | inr j ↦ absurd (
        less_irrefl f (
          less_trans f g f (All-In (λ h. less f h ≡ true) fs g s.0 j)
            (All-In (λ h. less g h ≡ true) gs f t.0 i)))
  ]
]

rest_same :
    (f : Finding) (fs gs : List Finding)
    → IsSorted (f ∷ fs)
    → SameFindings (f ∷ fs) (f ∷ gs)
    → (x : Finding) → In x fs
    → In x gs
rest_same f fs gs s same x i = elim ((same x).0 (inr i)) [
  | inl e ↦ absurd (
      less_irrefl f
        (subst (λ y. less f y ≡ true) (sym e) (All-In (λ h. less f h ≡ true) fs x s.0 i)))
  | inr j ↦ j
]

sorted_unique : (fs gs : List Finding) → IsSorted fs → IsSorted gs → SameFindings fs gs → fs ≡ gs
sorted_unique [] [] s t same = refl
sorted_unique [] (g ∷ gs) s t same = absurd ((same g).1 (inl refl))
sorted_unique (f ∷ fs) [] s t same = absurd ((same f).0 (inl refl))
sorted_unique (f ∷ fs) (g ∷ gs) s t same =
    let first = first_same f g fs gs s t same in
    let t' : IsSorted (f ∷ gs) = subst (λ h. IsSorted (h ∷ gs)) (sym first) t in
    let same' : SameFindings (f ∷ fs) (f ∷ gs) =
      subst (λ h. SameFindings (f ∷ fs) (h ∷ gs)) (sym first) same in
    let rest = sorted_unique fs gs s.1 t.1 (λ x.
      (rest_same f fs gs s same' x, rest_same f gs fs t' (λ y. ((same' y).1, (same' y).0)) x)) in
    λ i. first i ∷ rest i

-- Two stores with the same findings, in whatever order the agents reported them, have one report,
-- if no two findings of a store have the same rank of severity and the same title.
pub format_markdown-SameFindings :
    (fs gs : FindingsStore)
    → AreApart fs
    → AreApart gs
    → SameFindings fs gs
    → format_markdown fs ≡ format_markdown gs
unfolding format_markdown
format_markdown-SameFindings fs gs a b same = ap report_of (
    sorted_unique (sort_findings fs) (sort_findings gs) (sort_findings-IsSorted fs a)
      (sort_findings-IsSorted gs b)
      (λ x. (
        λ i. (In-sort_findings x gs).1 ((same x).0 ((In-sort_findings x fs).0 i)),
        λ i. (In-sort_findings x fs).1 ((same x).1 ((In-sort_findings x gs).0 i)),
      )))
