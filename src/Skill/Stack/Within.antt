-- ===== src/Skill/Stack/Within.antt =====
-- Where the paths lead that skill/stack.go lets through.
use mathlib.Core.List.{append-nil, append_assoc, reverse-append}
use squad.Base.{
  ◌∙◌, List, [], ◌∷◌, ◌++◌, true, false, Option, some, ◌≡◌, refl, sym, subst, ◌↔◌, inl, inr,
  Bool-cases,
}
use squad.Base.All.{All, All-append_right, All-of_In, In}
use squad.Base.Chars.{Chars, same_text, same_text_iff, trim_space}
use squad.Skill.Stack.Components.{clean_from-All}
use squad.Skill.Stack.{
  FilePath, Entry, Stack, is_nil, is_abs, split_slash, dot, dot_dot, clean_from, path_of, ups, rel,
  stays_below, is_within, resolve_below, resolve,
}

-- A component that does not go up.
abbrev pub IsDown : Chars → Type 0
IsDown c = same_text c dot_dot ≡ false

same_refl : (c : Chars) → same_text c c ≡ true
same_refl c = (same_text_iff c c).1 refl

cons_path : {c d : Chars} {p q : FilePath} → c ≡ d → p ≡ q → ◌≡◌ {A = FilePath} (c ∷ p) (d ∷ q)
cons_path p q = λ i. p i ∷ q i

ups_go_up : (c : Chars) (p q : FilePath) → stays_below (ups (c ∷ p) ++ q) ≡ true → ⊥
unfolding stays_below ups
ups_go_up c p q k = let t : false ≡ true = rw (same_refl dot_dot) at k in cc

rel_below :
    (parent child : FilePath)
    → stays_below (rel parent child) ≡ true
    → (rest : FilePath) × (child ≡ parent ++ rest)
unfolding rel
rel_below [] child h = (child, refl)
rel_below (c ∷ p) [] h =
    absurd (ups_go_up c p [] (subst (λ q. stays_below q ≡ true) (sym (append-nil (ups (c ∷ p)))) h))
rel_below (c ∷ p) (d ∷ child) h = elim (Bool-cases (same_text c d)) [
  | inl e ↦
      let (rest, same) = rel_below p child (rw (e, rel) at h) in
      (rest, cons_path (sym ((same_text_iff c d).0 e)) same)
  | inr e ↦ absurd (ups_go_up c p (d ∷ child) (rw (e, rel) at h))
]

rel-append : (parent rest : FilePath) → rel parent (parent ++ rest) ≡ rest
unfolding rel
rel-append [] rest = refl
rel-append (c ∷ p) rest = rw (same_refl c) (rel-append p rest)

down_stays : (rest : FilePath) → All IsDown rest → stays_below rest ≡ true
unfolding stays_below
down_stays [] a = refl
down_stays (c ∷ rest) a = rw a.0 refl

-- A path without `..` is within an absolute directory exactly if it is the directory's path with
-- components behind it, or none.
pub is_within_iff :
    (child : FilePath) (dir : Chars)
    → All IsDown child
    → is_abs dir ≡ true
    → (is_within child dir ≡ true) ↔ ((rest : FilePath) × (child ≡ path_of dir ++ rest))
unfolding is_within
is_within_iff child dir down abs = (
  λ h. rel_below (path_of dir) child (rw abs at h),
  λ (rest, e). rw (abs) (
      subst (λ q. stays_below (rel (path_of dir) q) ≡ true) (sym e)
        (rw (rel-append (path_of dir) rest) (
          down_stays rest
            (All-append_right IsDown (path_of dir) rest (subst (All IsDown) e down))))),
)

-- An active directory that holds the path.
abbrev pub Holds : Stack → FilePath → Type 0
Holds s abs = (e : Entry) × In e s × (rest : FilePath) × (abs ≡ path_of e.dir ++ rest)

clean_from-IsDown : (p : FilePath) (cs : List Chars) → All IsDown p → All IsDown (clean_from p cs)
clean_from-IsDown p cs a =
    clean_from-All IsDown (λ c. Unit) (λ c q e down. down) p cs a (All-of_In _ cs (λ c i. tt))

-- Without `..` a relative path only goes down.
clean_from_below :
    (p : FilePath) (cs : List Chars)
    → All IsDown cs
    → (rest : FilePath) × (clean_from p cs ≡ p ++ rest)
unfolding clean_from
clean_from_below p [] a = ([], sym (append-nil p))
clean_from_below p (c ∷ cs) a = elim (Bool-cases (is_nil c)) [
  | inl e ↦ rw (e, clean_from) (clean_from_below p cs a.1)
  | inr e ↦ elim (Bool-cases (same_text c dot)) [
    | inl d ↦ rw (e, d, clean_from) (clean_from_below p cs a.1)
    | inr n ↦
        let (rest, same) = clean_from_below (p ++ c ∷ []) cs a.1 in
        rw (e, n, a.0, clean_from) (c ∷ rest, same ∙ append_assoc p (c ∷ []) rest)
  ]
]

-- A relative path that is not blank and has no component `..` is taken from the newest skill's
-- directory, if that is absolute.
pub resolve_newest :
    (s : Stack) (e : Entry) (input : Chars)
    → is_nil (trim_space input) ≡ false
    → is_abs input ≡ false
    → is_abs e.dir ≡ true
    → All IsDown (split_slash [] input)
    → resolve (s ++ e ∷ []) input ≡ some (clean_from (path_of e.dir) (split_slash [] input))
unfolding resolve resolve_below path_of
resolve_newest s e input text relative abs down =
    let target = clean_from (path_of e.dir) (split_slash [] input) in
    let clean : All IsDown target =
      clean_from-IsDown (path_of e.dir) (split_slash [] input) (path_of-IsDown e.dir) in
    let inside =
      (is_within_iff target e.dir clean abs).1
        (clean_from_below (path_of e.dir) (split_slash [] input) down) in
    rw (text) (rw (relative) (rw (reverse-append s (e ∷ [])) (rw inside refl)))
  where
    path_of-IsDown : (dir : Chars) → All IsDown (path_of dir)
    path_of-IsDown dir = clean_from-IsDown [] (split_slash [] dir) tt
