-- ===== src/Skill/Stack.antt =====
-- skill/stack.go: the directories of the active skills, and the paths that they make readable. Paths
-- are those of a Unix system. The methods' answers for a nil receiver are left out.
pub mod Components
pub mod Within
pub mod Entries
use mathlib.Core.List.{reverse}
use squad.Base.{
  ℕ, zero, suc, List, [], ◌∷◌, ◌++◌, Bool, true, false, not, ◌&&◌, ◌||◌, Option, none, some, length,
  ◌==◌, if◌then◌else◌,
}
use squad.Base.Text.{codes}
use squad.Base.Chars.{Chars, same_text, trim_space}

-- The components of a path.
abbrev pub FilePath : Type 0
FilePath = List Chars

-- `Entry`, by the fields that the stack reads.
pub record Entry : Type 0 where
  pub dir : Chars

-- Oldest first.
abbrev pub Stack : Type 0
Stack = List Entry

unfoldable pub is_pushed : Chars → Stack → Bool
is_pushed dir [] = false
is_pushed dir (e ∷ s) = same_text e.dir dir || is_pushed dir s

abbrev pub is_nil : Chars → Bool
is_nil [] = true
is_nil (c ∷ s) = false

unfoldable pub push : Entry → Stack → Bool × Stack
push e s =
    if is_nil e.dir
    then (false, s)
    else if is_pushed e.dir s
    then (true, s)
    else (true, s ++ e ∷ [])

unfoldable pub top : Stack → Option Entry
top [] = none
top (e ∷ []) = some e
top (e ∷ f ∷ s) = top (f ∷ s)

-- `filepath.IsAbs`
unfoldable pub is_abs : Chars → Bool
is_abs [] = false
is_abs (c ∷ s) = c == b'/'

-- The text between the slashes; `cur` is the component so far.
unfoldable pub split_slash : Chars → Chars → List Chars
split_slash cur [] = cur ∷ []
split_slash cur (c ∷ s) = elim (c == b'/') [
  | true ↦ cur ∷ split_slash [] s
  | false ↦ split_slash (cur ++ c ∷ []) s
]

abbrev pub dot : Chars
dot = b'.' ∷ []

abbrev pub dot_dot : Chars
dot_dot = b'.' ∷ b'.' ∷ []

unfoldable pub drop_last : FilePath → FilePath
drop_last [] = []
drop_last (c ∷ []) = []
drop_last (c ∷ d ∷ p) = c ∷ drop_last (d ∷ p)

-- `filepath.Clean` of the components behind an absolute path.
unfoldable pub clean_from : FilePath → List Chars → FilePath
unfolding drop_last
clean_from p [] = p
clean_from p (c ∷ cs) =
    let skip = clean_from p cs in
    let up = clean_from (drop_last p) cs in
    let down = clean_from (p ++ c ∷ []) cs in
    if is_nil c
    then skip
    else if same_text c dot
    then skip
    else if same_text c dot_dot
    then up
    else down

unfoldable pub path_of : Chars → FilePath
unfolding clean_from split_slash
path_of text = clean_from [] (split_slash [] text)

-- `filepath.Rel(parent, child)` for absolute paths that are clean: up from the parent to what both
-- have in common, then down.
unfoldable pub ups : FilePath → FilePath
ups [] = []
ups (c ∷ p) = dot_dot ∷ ups p

unfoldable pub rel : FilePath → FilePath → FilePath
unfolding ups
rel [] child = child
rel (c ∷ p) [] = ups (c ∷ p)
rel (c ∷ p) (d ∷ child) =
    let inside = rel p child in if same_text c d then inside else ups (c ∷ p) ++ d ∷ child

-- The relative path is `.`, or does not begin with the component `..`.
unfoldable pub stays_below : FilePath → Bool
stays_below [] = true
stays_below (c ∷ p) = not (same_text c dot_dot)

-- `isWithin`; `filepath.Rel` fails if the directory is not absolute.
unfoldable pub is_within : FilePath → Chars → Bool
unfolding rel path_of stays_below
is_within child dir = if is_abs dir then stays_below (rel (path_of dir) child) else false

unfoldable pub contains : Stack → FilePath → Bool
unfolding is_within
contains [] abs = false
contains (e ∷ s) abs = is_within abs e.dir || contains s abs

-- The loop over the directories, the newest first: `filepath.Join` with each.
unfoldable pub resolve_below : List Entry → List Chars → Option FilePath
unfolding is_within path_of
resolve_below [] input = none
resolve_below (e ∷ s) input =
    let rest = resolve_below s input in
    if is_within (clean_from (path_of e.dir) input) e.dir
    then some (clean_from (path_of e.dir) input)
    else rest

unfoldable pub resolve : Stack → Chars → Option FilePath
unfolding contains resolve_below
resolve s input =
    if is_nil (trim_space input)
    then none
    else if is_abs input
    then (if contains s (path_of input) then some (path_of input) else none)
    else resolve_below (reverse s) (split_slash [] input)

-- `filepath.EvalSymlinks`
pub data Evaluated : Type 0 where
  real : FilePath → Evaluated
  not_exist : Evaluated
  eval_error : Evaluated

pub data SymlinkError : Type 0 where
  not_evaluated : SymlinkError
  escapes : SymlinkError

unfoldable pub any_real_within : (FilePath → Evaluated) → Stack → FilePath → Bool
unfolding rel path_of stays_below
any_real_within eval [] target = false
any_real_within eval (e ∷ s) target = elim (eval (path_of e.dir)) [
  | real base ↦ (is_abs e.dir && stays_below (rel base target)) || any_real_within eval s target
  | not_exist ↦ any_real_within eval s target
  | eval_error ↦ any_real_within eval s target
]

-- `VerifyNoSymlinkEscape`, with the error if there is one.
unfoldable pub verify_no_symlink_escape :
    (FilePath → Evaluated) → Stack → FilePath → Option SymlinkError
unfolding any_real_within
verify_no_symlink_escape eval s abs = elim (eval abs) [
  | real target ↦ if any_real_within eval s target then none else some escapes
  | not_exist ↦ none
  | eval_error ↦ some not_evaluated
]
