-- ===== src/Tools/Paths/Below.antt =====
-- Which paths `ResolvePath` of tools/tools.go lets through.
use mathlib.Core.List.{append_assoc}
use squad.Base.{
  Result, ok, err, [], ◌∷◌, ◌++◌, Bool, true, false, Option, none, some, ◌≡◌, refl, subst, ap, ◌==◌,
  Bool-cases, inl, inr, arith,
}
use squad.Base.Chars.{Chars, same_text, same_text_iff, has_prefix, has_prefix-same, trim_space}
use squad.Skill.Stack.{FilePath, is_nil}
use squad.Tools.Paths.Names.{HasNoSlash, IsName, IsProper, abs_path-IsProper, joined_path-IsProper}
use squad.Tools.Paths.{
  PathError, abs_path, joined_path, text_before, slash, text_of, is_inside, check_inside,
  resolve_path,
}

-- A path below a directory, or the directory.
abbrev pub Below : FilePath → FilePath → Type 0
Below dir abs = (rest : FilePath) × (abs ≡ dir ++ rest)

text_before-append : (p : FilePath) (s t : Chars) → text_before p (s ++ t) ≡ text_before p s ++ t
unfolding text_before
text_before-append [] s t = refl
text_before-append (c ∷ p) s t =
    rw (text_before-append p s t, append_assoc c (text_before p s) t) refl

starts_slash : Chars → Bool
starts_slash [] = true
starts_slash (c ∷ s) = c == b'/'

-- Up to the first slash two texts have the same component.
same_component :
    (a d tail more : Chars)
    → HasNoSlash a
    → HasNoSlash d
    → starts_slash tail ≡ true
    → has_prefix (a ++ tail) (d ++ b'/' ∷ more) ≡ true
    → (same_text a d ≡ true) × (has_prefix tail (b'/' ∷ more) ≡ true)
unfolding has_prefix same_text starts_slash
same_component [] [] tail more pa pd st h = (refl, h)
same_component [] (x ∷ d) [] more pa pd st h = absurd (cc)
same_component [] (x ∷ d) (y ∷ tail) more pa pd st h = absurd (ground arith)
same_component (y ∷ a) [] tail more pa pd st h = absurd (ground arith)
same_component (y ∷ a) (x ∷ d) tail more pa pd st h =
    let (same, rest) = same_component a d tail more pa.1 pd.1 st (ground arith) in
    (ground arith, rest)

abbrev tail_of : Bool → Chars
tail_of true = slash
tail_of false = []

Below-of_text :
    (dir abs : FilePath) (b : Bool)
    → IsProper dir
    → IsProper abs
    → has_prefix (text_before abs (tail_of b)) (text_before dir slash) ≡ true
    → Below dir abs
unfolding text_before has_prefix starts_slash
Below-of_text [] abs b pd pa h = (abs, refl)
Below-of_text (([]) ∷ p) [] b pd pa h = absurd (let k = pd.0.1 in cc)
Below-of_text ((x ∷ d) ∷ p) [] true pd pa h = absurd (cc)
Below-of_text ((x ∷ d) ∷ p) [] false pd pa h = absurd (cc)
Below-of_text (d ∷ p) (a ∷ q) b pd pa h =
    let (more, head) = heads p in
    let (same, later) =
      same_component a d (text_before q (tail_of b)) more pa.0.0 pd.0.0 (starts q b)
        (rw head at h) in
    let (rest, e) = Below-of_text p q b pd.1 pa.1 (rw head later) in
    (rest, cons_path ((same_text_iff a d).0 same) e)
  where
    heads : (p : FilePath) → (more : Chars) × (text_before p slash ≡ b'/' ∷ more)
    heads [] = ([], refl)
    heads (c ∷ p) = (c ++ text_before p slash, refl)

    starts : (q : FilePath) (b : Bool) → starts_slash (text_before q (tail_of b)) ≡ true
    starts [] true = refl
    starts [] false = refl
    starts (c ∷ q) b = refl

    cons_path : {c d : Chars} {p q : FilePath} → c ≡ d → p ≡ q → ◌≡◌ {A = FilePath} (c ∷ p) (d ∷ q)
    cons_path p q = λ i. p i ∷ q i

text_before-slash : (p : FilePath) → text_before p slash ≡ text_before p [] ++ slash
text_before-slash p = text_before-append p [] slash

root_outside : (d : Chars) (p : FilePath) → IsName d → is_inside [] (d ∷ p) ≡ false
unfolding is_inside text_of text_before same_text has_prefix
root_outside [] p h = absurd (let k = h.1 in cc)
root_outside (x ∷ d) p h = refl

same_text_refl : (s : Chars) → same_text s s ≡ true
same_text_refl s = (same_text_iff s s).1 refl

prefix_refl : (s : Chars) → has_prefix s s ≡ true
prefix_refl s = has_prefix-same s s (same_text_refl s)

is_inside-Below :
    (dir abs : FilePath) → IsProper dir → IsProper abs → is_inside abs dir ≡ true → Below dir abs
unfolding is_inside text_of
is_inside-Below [] abs pd pa h = (abs, refl)
is_inside-Below (d ∷ p) [] pd pa h = absurd (let k = root_outside d p pd.0 in cc)
is_inside-Below (d ∷ p) (a ∷ q) pd pa h =
    elim (Bool-cases (same_text (text_before (a ∷ q) []) (text_before (d ∷ p) []))) [
      | inl e ↦ Below-of_text (d ∷ p) (a ∷ q) true pd pa (
          rw (text_before-slash (a ∷ q), text_before-slash (d ∷ p))
            (rw ((same_text_iff _ _).0 e) (prefix_refl (text_before (d ∷ p) [] ++ slash))))
      | inr e ↦
          Below-of_text (d ∷ p) (a ∷ q) false pd pa (rw (text_before-slash (d ∷ p)) (rw e at h))
    ]

-- What `ResolvePath` has found out, if it returns a path.
resolve_path_inv :
    (cwd : Option Chars) (wd input : Chars) (dir abs : FilePath)
    → abs_path cwd wd ≡ some dir
    → resolve_path cwd wd input ≡ ok abs
    → (joined_path cwd wd input ≡ some abs) × (is_inside abs dir ≡ true)
unfolding resolve_path check_inside
resolve_path_inv cwd wd input dir abs known h = elim (Bool-cases (is_nil (trim_space input))) [
  | inl e ↦ absurd (let k : ◌≡◌ {A = Result PathError FilePath} (err _) (ok abs) = rw e at h in cc)
  | inr e ↦ checked (joined_path cwd wd input) (rw (e, known) at h)
]
  where
    ok-injective : {a b : FilePath} → ◌≡◌ {A = Result PathError FilePath} (ok a) (ok b) → a ≡ b
    ok-injective e = cc

    checked :
        (m : Option FilePath)
        → check_inside m (some dir) ≡ ok abs
        → (m ≡ some abs) × (is_inside abs dir ≡ true)
    checked none k = absurd (cc)
    checked (some a) k = elim (Bool-cases (is_inside a dir)) [
      | inl w ↦
          let same : ◌≡◌ {A = Result PathError FilePath} (ok a) (ok abs) = rw w at k in
          (ap some (ok-injective same), subst (λ q. is_inside q dir ≡ true) (ok-injective same) w)
      | inr n ↦
          absurd (let w : ◌≡◌ {A = Result PathError FilePath} (err _) (ok abs) = rw n at k in cc)
    ]

-- A path that `ResolvePath` returns is the working directory or below it, whatever the input is.
pub resolve_path-Below :
    (cwd : Option Chars) (wd input : Chars) (dir abs : FilePath)
    → abs_path cwd wd ≡ some dir
    → resolve_path cwd wd input ≡ ok abs
    → Below dir abs
resolve_path-Below cwd wd input dir abs known h =
    let (joined, inside) = resolve_path_inv cwd wd input dir abs known h in
    is_inside-Below dir abs (abs_path-IsProper cwd wd dir known)
      (joined_path-IsProper cwd wd input abs joined) inside
