-- ===== src/Tools/Paths.antt =====
-- tools/tools.go: how the path that a call names becomes a path of the working tree. Paths are those
-- of a Unix system; `cwd` is the answer of `os.Getwd`, an absolute path, or `none` if that fails.
pub mod Names
pub mod Below
use mathlib.Core.Option as Option
use squad.Base.{Result, ok, err, List, [], ◌∷◌, ◌++◌, Bool, ◌||◌, Option, none, some, if◌then◌else◌}
use squad.Base.Chars.{Chars, same_text, has_prefix, trim_space}
use squad.Skill.Stack.{FilePath, is_nil, is_abs, split_slash, clean_from, path_of}

pub data PathError : Type 0 where
  path_required no_working_dir outside_working_dir : PathError

-- `filepath.Join(dir, input)`, for a clean absolute path.
unfoldable pub join_path : FilePath → Chars → FilePath
join_path dir input = clean_from dir (split_slash [] input)

-- `filepath.Abs`
unfoldable pub abs_path : Option Chars → Chars → Option FilePath
abs_path cwd text =
    if is_abs text then some (path_of text) else Option.map (λ d. join_path (path_of d) text) cwd

-- The absolute path that the input names: itself, or one below the working directory.
unfoldable pub joined_path : Option Chars → Chars → Chars → Option FilePath
joined_path cwd working_dir input =
    if is_abs input
    then some (path_of input)
    else Option.map (λ d. join_path d input) (abs_path cwd working_dir)

-- The components, each behind a slash, before a text.
unfoldable pub text_before : FilePath → Chars → Chars
text_before [] tail = tail
text_before (c ∷ p) tail = b'/' ∷ c ++ text_before p tail

abbrev pub slash : Chars
slash = b'/' ∷ []

-- A clean absolute path as Go writes it.
unfoldable pub text_of : FilePath → Chars
text_of [] = slash
text_of (c ∷ p) = text_before (c ∷ p) []

-- `abs == wd || strings.HasPrefix(abs, wd + "/")`
unfoldable pub is_inside : FilePath → FilePath → Bool
unfolding text_of
is_inside abs wd =
    same_text (text_of abs) (text_of wd) || has_prefix (text_of abs) (text_of wd ++ slash)

-- The test on the place of the path, once both are known.
unfoldable pub check_inside : Option FilePath → Option FilePath → Result PathError FilePath
check_inside none wd = err no_working_dir
check_inside (some abs) none = err no_working_dir
check_inside (some abs) (some wd) = if is_inside abs wd then ok abs else err outside_working_dir

-- `ResolvePath`
unfoldable pub resolve_path : Option Chars → Chars → Chars → Result PathError FilePath
resolve_path cwd working_dir input =
    if is_nil (trim_space input)
    then err path_required
    else check_inside (joined_path cwd working_dir input) (abs_path cwd working_dir)
