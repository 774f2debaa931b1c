-- ===== src/Tools/CommentGuard/CodeLines.antt =====
-- Which lines of a text tools/commentguard.go compares, without reference to how it finds them.
use mathlib.Core.List.{reverse, reverse-append, reverse-cons, reverse-reverse}
use squad.Base.{
  ◌≡◌, ◌≢◌, refl, sym, ap, ◌∙◌, subst, ◌⊎◌, inl, inr, List, [], ◌∷◌, ◌++◌, map, true, false, ◌||◌,
  ◌==◌, Option, none, some, Bool-cases, Option-cases, arith, if◌then◌else◌,
}
use squad.Base.Text.{codes}
use squad.Base.All.{All, All-append, In}
use squad.Base.Chars.{Chars, has_prefix, is_space, drop_spaces, trim_space}
use squad.Tools.CommentGuard.{
  drop_blanks, before_slashes, strip_trailing_line_comment, is_comment_marker, is_nil, code_lines,
}

-- The second text is the first one up to the first `//`, or all of it if there is none.
pub data Cut : Chars → Chars → Type 0 where
  whole : Cut [] []
  at_slashes : {s : Chars} → has_prefix s (codes "//") ≡ true → Cut s []
  further :
      {c : _} {s t : Chars}
      → has_prefix (c ∷ s) (codes "//") ≡ false
      → Cut s t
      → Cut (c ∷ s) (c ∷ t)

-- The text begins like a comment.
abbrev pub IsComment : Chars → Type 0
IsComment t =
    (m : Chars) × In m (map codes ("//" ∷ "#" ∷ "--" ∷ "/*" ∷ "*/" ∷ "*" ∷ []))
    × (has_prefix t m ≡ true)

-- The lines of code among the lines of a text, in order: each without what `//` begins, and without
-- the space around it. Blank lines and lines that begin like a comment are left out.
pub data CodeLines : List Chars → List Chars → Type 0 where
  end : CodeLines [] []
  code :
      {raw body : Chars} {raws found : List Chars}
      → Cut raw body
      → trim_space body ≢ []
      → (IsComment (trim_space body) → ⊥)
      → CodeLines raws found
      → CodeLines (raw ∷ raws) (trim_space body ∷ found)
  no_code :
      {raw body : Chars} {raws found : List Chars}
      → Cut raw body
      → (trim_space body ≡ []) ⊎ IsComment (trim_space body)
      → CodeLines raws found
      → CodeLines (raw ∷ raws) found

abbrev AreSpaces : Chars → Type 0
AreSpaces s = All (λ c. is_space c ≡ true) s

drop_spaces_all : (b rest : Chars) → AreSpaces b → drop_spaces (b ++ rest) ≡ drop_spaces rest
unfolding drop_spaces
drop_spaces_all [] rest h = refl
drop_spaces_all (c ∷ b) rest h = rw h.0 (drop_spaces_all b rest h.1)

drop_spaces_none : (b : Chars) → AreSpaces b → drop_spaces b ≡ []
unfolding drop_spaces
drop_spaces_none [] h = refl
drop_spaces_none (c ∷ b) h = rw h.0 (drop_spaces_none b h.1)

reverse-AreSpaces : (b : Chars) → AreSpaces b → AreSpaces (reverse b)
reverse-AreSpaces [] h = h
reverse-AreSpaces (c ∷ b) h =
    subst AreSpaces (sym (reverse-cons c b))
      (All-append _ (reverse b) (c ∷ []) (reverse-AreSpaces b h.1) (h.0, tt))

drop_spaces-append :
    (u b : Chars)
    → AreSpaces b
    → (drop_spaces (u ++ b) ≡ drop_spaces u ++ b)
      ⊎ ((drop_spaces (u ++ b) ≡ []) × (drop_spaces u ≡ []))
unfolding drop_spaces
drop_spaces-append [] [] h = inl refl
drop_spaces-append [] (c ∷ b) h = inr (rw h.0 (drop_spaces_none b h.1), refl)
drop_spaces-append (c ∷ u) b h = elim (Bool-cases (is_space c)) [
  | inl e ↦ rw e (drop_spaces-append u b h)
  | inr e ↦ rw e (inl refl)
]

-- Space at the end of a text does not matter once it is trimmed.
trim_space_end : (u b : Chars) → AreSpaces b → trim_space (u ++ b) ≡ trim_space u
unfolding trim_space
trim_space_end u b h = elim (drop_spaces-append u b h) [
  | inr (all, none_left) ↦ rw (all, none_left) refl
  | inl e ↦
      ap (λ s. reverse (drop_spaces (reverse s))) e
      ∙ ap (λ s. reverse (drop_spaces s)) (reverse-append (drop_spaces u) b)
      ∙ ap reverse (drop_spaces_all (reverse b) (reverse (drop_spaces u)) (reverse-AreSpaces b h))
]

drop_blanks_split : (r : Chars) → (b : Chars) × AreSpaces b × (r ≡ b ++ drop_blanks r)
unfolding drop_blanks is_space
drop_blanks_split [] = ([], tt, refl)
drop_blanks_split (c ∷ r) = elim (Bool-cases (c == b' ' || c == b'\t')) [
  | inl e ↦
      let (b, spaces, same) = drop_blanks_split r in
      (c ∷ b, (ground arith, spaces), rw e (ap (λ s. c ∷ s) same))
  | inr e ↦ ([], tt, rw e refl)
]

trim_space-drop_blanks : (t : Chars) → trim_space (reverse (drop_blanks (reverse t))) ≡ trim_space t
trim_space-drop_blanks t =
    let (b, spaces, same) = drop_blanks_split (reverse t) in
    let back : t ≡ reverse (drop_blanks (reverse t)) ++ reverse b =
      sym (reverse-reverse t) ∙ ap reverse same ∙ reverse-append b (drop_blanks (reverse t)) in
    sym (
      ap trim_space back
      ∙ trim_space_end (reverse (drop_blanks (reverse t))) (reverse b) (reverse-AreSpaces b spaces))

abbrev cut_off : Option Chars → Chars → Chars
cut_off none s = s
cut_off (some t) s = t

before_slashes-Cut : (s : Chars) → Cut s (cut_off (before_slashes s) s)
unfolding before_slashes
before_slashes-Cut [] = whole
before_slashes-Cut (c ∷ s) = elim (Bool-cases (has_prefix (c ∷ s) (codes "//"))) [
  | inl e ↦ rw (e, before_slashes) (at_slashes e)
  | inr e ↦ elim (Option-cases (before_slashes s)) [
    | inl n ↦
        rw (e, n, before_slashes)
          (further e (subst (λ o. Cut s (cut_off o s)) n (before_slashes-Cut s)))
    | inr (t, h) ↦
        rw (e, h, before_slashes)
          (further e (subst (λ o. Cut s (cut_off o s)) h (before_slashes-Cut s)))
  ]
]

trim_space-strip :
    (raw : Chars)
    → trim_space (strip_trailing_line_comment raw) ≡ trim_space (cut_off (before_slashes raw) raw)
unfolding strip_trailing_line_comment
trim_space-strip raw = stripped (before_slashes raw)
  where
    stripped :
        (o : Option Chars)
        → trim_space (elim o [ none ↦ raw | some t ↦ reverse (drop_blanks (reverse t)) ])
          ≡ trim_space (cut_off o raw)
    stripped none = refl
    stripped (some t) = trim_space-drop_blanks t

some_marker : (t : Chars) → is_comment_marker t ≡ true → IsComment t
unfolding is_comment_marker
some_marker t h = elim (Bool-cases (has_prefix t (codes "//"))) [
  | inl p0 ↦ (codes "//", inl refl, p0)
  | inr n0 ↦ elim (Bool-cases (has_prefix t (codes "#"))) [
    | inl p1 ↦ (codes "#", inr (inl refl), p1)
    | inr n1 ↦ elim (Bool-cases (has_prefix t (codes "--"))) [
      | inl p2 ↦ (codes "--", inr (inr (inl refl)), p2)
      | inr n2 ↦ elim (Bool-cases (has_prefix t (codes "/*"))) [
        | inl p3 ↦ (codes "/*", inr (inr (inr (inl refl))), p3)
        | inr n3 ↦ elim (Bool-cases (has_prefix t (codes "*/"))) [
          | inl p4 ↦ (codes "*/", inr (inr (inr (inr (inl refl)))), p4)
          | inr n4 ↦ elim (Bool-cases (has_prefix t (codes "*"))) [
            | inl p5 ↦ (codes "*", inr (inr (inr (inr (inr (inl refl))))), p5)
            | inr n5 ↦ absurd (ground arith)
          ]
        ]
      ]
    ]
  ]
]

no_marker : (t : Chars) → is_comment_marker t ≡ false → IsComment t → ⊥
unfolding is_comment_marker
no_marker t h (m, i, p) = elim i [
  | inl e ↦ let k = rw (sym e) at p in absurd (ground arith)
  | inr (inl e) ↦ let k = rw (sym e) at p in absurd (ground arith)
  | inr (inr (inl e)) ↦ let k = rw (sym e) at p in absurd (ground arith)
  | inr (inr (inr (inl e))) ↦ let k = rw (sym e) at p in absurd (ground arith)
  | inr (inr (inr (inr (inl e)))) ↦ let k = rw (sym e) at p in absurd (ground arith)
  | inr (inr (inr (inr (inr (inl e))))) ↦ let k = rw (sym e) at p in absurd (ground arith)
  | inr (inr (inr (inr (inr (inr j))))) ↦ absurd j
]

is_nil_iff : (s : Chars) → (is_nil s ≡ true) → s ≡ []
is_nil_iff [] h = refl
is_nil_iff (c ∷ s) h = absurd (cc)

-- The guard finds these lines.
pub code_lines-CodeLines : (raws : List Chars) → CodeLines raws (code_lines raws)
unfolding code_lines
code_lines-CodeLines [] = end
code_lines-CodeLines (raw ∷ raws) =
    subst (λ t. CodeLines (raw ∷ raws) (with_line t)) (sym (trim_space-strip raw))
      (at_body (code_lines-CodeLines raws) (cut_off (before_slashes raw) raw)
        (before_slashes-Cut raw))
  where
    with_line : Chars → List Chars
    with_line t =
        if is_nil t
        then code_lines raws
        else if is_comment_marker t
        then code_lines raws
        else t ∷ code_lines raws

    not_nil : (t : Chars) → is_nil t ≡ false → t ≡ [] → ⊥
    not_nil [] n e = absurd (cc)
    not_nil (c ∷ t) n e = absurd (cc)

    at_body :
        CodeLines raws (code_lines raws)
        → (body : Chars) → Cut raw body
        → CodeLines (raw ∷ raws) (with_line (trim_space body))
    at_body rest body cut = elim (Bool-cases (is_nil (trim_space body))) [
      | inl e ↦ rw e (no_code cut (inl (is_nil_iff (trim_space body) e)) rest)
      | inr n ↦ elim (Bool-cases (is_comment_marker (trim_space body))) [
        | inl e ↦ rw (n, e) (no_code cut (inr (some_marker (trim_space body) e)) rest)
        | inr m ↦
            rw (n, m)
              (code cut (λ e. not_nil (trim_space body) n e) (no_marker (trim_space body) m) rest)
      ]
    ]
