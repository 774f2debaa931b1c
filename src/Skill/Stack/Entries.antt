-- ===== src/Skill/Stack/Entries.antt =====
-- The stack of skill/stack.go under `Push`.
use squad.Base.{List, [], ◌∷◌, ◌++◌, true, false, ◌≡◌, refl, ◌↔◌, inl, inr, Bool-cases}
use squad.Base.All.{
  Distinct-snoc, All-In, All, All-append, In, In-append_left, In-append_right, Distinct,
}
use squad.Base.Chars.{Chars, same_text, same_text_iff}
use squad.Skill.Stack.{Entry, Stack, is_pushed, is_nil, push}

abbrev pub dirs : Stack → List Chars
dirs [] = []
dirs (e ∷ s) = e.dir ∷ dirs s

-- No directory stands twice on the stack, and none is empty.
abbrev pub IsStack : Stack → Type 0
IsStack s = Distinct (dirs s) × All (λ d. is_nil d ≡ false) (dirs s)

is_pushed_iff : (dir : Chars) (s : Stack) → (is_pushed dir s ≡ true) ↔ In dir (dirs s)
unfolding is_pushed
is_pushed_iff dir [] = ((λ h. absurd (cc)), λ i. absurd i)
is_pushed_iff dir (e ∷ s) = elim (Bool-cases (same_text e.dir dir)) [
  | inl y ↦ ((λ h. inl ((same_text_iff e.dir dir).0 y)), λ i. rw y refl)
  | inr n ↦ (
    (λ h. inr ((is_pushed_iff dir s).0 (rw n at h))),
    λ i. elim i [
      | inl same ↦ absurd (let k = (same_text_iff e.dir dir).1 same in cc)
      | inr j ↦ rw n ((is_pushed_iff dir s).1 j)
    ],
  )
]

dirs-append : (s t : Stack) → dirs (s ++ t) ≡ dirs s ++ dirs t
dirs-append [] t = refl
dirs-append (e ∷ s) t = rw (dirs-append s t)

-- `Push` keeps the stack well-formed, keeps what was on it, and returns true exactly if the entry's
-- directory is now on the stack.
pub push_lem :
    (e : Entry) (s : Stack)
    → IsStack s
    → IsStack (push e s).1
      × ((d : Chars) → In d (dirs s) → In d (dirs (push e s).1))
      × (((push e s).0 ≡ true) ↔ In e.dir (dirs (push e s).1))
unfolding push
push_lem e s ok = elim (Bool-cases (is_nil e.dir)) [
  | inl n ↦ rw n (
    ok,
    (λ d i. i),
    (
      (λ h. absurd (cc)),
      λ i. absurd (let k = All-In (λ d. is_nil d ≡ false) (dirs s) e.dir ok.1 i in cc),
    ),
  )
  | inr n ↦ elim (Bool-cases (is_pushed e.dir s)) [
    | inl p ↦ rw (n, p) (ok, (λ d i. i), ((λ h. (is_pushed_iff e.dir s).0 p), λ i. refl))
    | inr p ↦
        rw (n, p)
          (rw (dirs-append s (e ∷ [])) (
            (
              Distinct-snoc (dirs s) e.dir ok.0
                  (λ i. let k = (is_pushed_iff e.dir s).1 i in absurd (cc)),
              All-append (λ d. is_nil d ≡ false) (dirs s) (e.dir ∷ []) ok.1 (n, tt),
            ),
            (λ d i. In-append_left d (dirs s) (e.dir ∷ []) i),
            ((λ h. In-append_right e.dir (dirs s) (e.dir ∷ []) (inl refl)), λ i. refl),
          ))
  ]
]
