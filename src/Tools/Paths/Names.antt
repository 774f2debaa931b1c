-- ===== src/Tools/Paths/Names.antt =====
-- The components of the paths of tools/tools.go: never empty, and without a slash.
use mathlib.Core.Option as Option
use mathlib.Core.Option.{some-injective}
use squad.Base.{
  List, [], ◌∷◌, ◌++◌, false, Option, none, some, ◌≡◌, refl, subst, ◌==◌, Bool-cases, inl, inr,
}
use squad.Base.All.{All, All-append}
use squad.Base.Chars.{Chars}
use squad.Skill.Stack.Components.{clean_from-All}
use squad.Skill.Stack.{FilePath, is_nil, is_abs, split_slash, clean_from, path_of}
use squad.Tools.Paths.{join_path, abs_path, joined_path}

abbrev pub HasNoSlash : Chars → Type 0
HasNoSlash = All (λ c. (c == b'/') ≡ false)

-- A component of a clean path.
abbrev pub IsName : Chars → Type 0
IsName c = HasNoSlash c × (is_nil c ≡ false)

abbrev pub IsProper : FilePath → Type 0
IsProper = All IsName

split_slash-HasNoSlash : (cur text : Chars) → HasNoSlash cur → All HasNoSlash (split_slash cur text)
unfolding split_slash
split_slash-HasNoSlash cur [] h = (h, tt)
split_slash-HasNoSlash cur (c ∷ s) h = elim (Bool-cases (c == b'/')) [
  | inl e ↦ rw (e, split_slash) (h, split_slash-HasNoSlash [] s tt)
  | inr e ↦
      rw (e, split_slash)
        (split_slash-HasNoSlash (cur ++ c ∷ []) s (All-append _ cur (c ∷ []) h (e, tt)))
]

clean_from-IsProper :
    (p : FilePath) (cs : List Chars) → IsProper p → All HasNoSlash cs → IsProper (clean_from p cs)
clean_from-IsProper = clean_from-All IsName HasNoSlash (λ c slashless e down. (slashless, e))

join_path-IsProper : (dir : FilePath) (text : Chars) → IsProper dir → IsProper (join_path dir text)
unfolding join_path
join_path-IsProper dir text a =
    clean_from-IsProper dir (split_slash [] text) a (split_slash-HasNoSlash [] text tt)

path_of-IsProper : (text : Chars) → IsProper (path_of text)
unfolding path_of
path_of-IsProper text =
    clean_from-IsProper [] (split_slash [] text) tt (split_slash-HasNoSlash [] text tt)

map-IsProper :
    {A : Type 0} (f : A → FilePath) (m : Option A) (abs : FilePath)
    → ((d : A) → m ≡ some d → IsProper (f d))
    → Option.map f m ≡ some abs
    → IsProper abs
map-IsProper f none abs each h = absurd (cc)
map-IsProper f (some d) abs each h = subst IsProper (some-injective (f d) abs h) (each d refl)

pub abs_path-IsProper :
    (cwd : Option Chars) (text : Chars) (dir : FilePath)
    → abs_path cwd text ≡ some dir
    → IsProper dir
unfolding abs_path
abs_path-IsProper cwd text dir h = elim (Bool-cases (is_abs text)) [
  | inl e ↦ subst IsProper (some-injective _ dir (rw e at h)) (path_of-IsProper text)
  | inr e ↦
      map-IsProper _ cwd dir (λ d k. join_path-IsProper (path_of d) text (path_of-IsProper d))
        (rw e at h)
]

pub joined_path-IsProper :
    (cwd : Option Chars) (wd input : Chars) (abs : FilePath)
    → joined_path cwd wd input ≡ some abs
    → IsProper abs
unfolding joined_path
joined_path-IsProper cwd wd input abs h = elim (Bool-cases (is_abs input)) [
  | inl e ↦ subst IsProper (some-injective _ abs (rw e at h)) (path_of-IsProper input)
  | inr e ↦
      map-IsProper _ (abs_path cwd wd) abs
        (λ d k. join_path-IsProper d input (abs_path-IsProper cwd wd d k)) (rw e at h)
]
