-- ===== src/Routine/Scope.antt =====
-- routine/scope.go: the names of routines.
pub mod Names
use squad.Base.{
  Result, ok, err, ℕ, List, [], ◌∷◌, ◌++◌, Bool, true, false, ◌&&◌, ◌||◌, Option, none, some, ◌==◌,
  if◌then◌else◌,
}
use squad.Base.Text.{codes}
use squad.Base.Chars.{Chars, same_text}
use squad.Routine.Manifest.{validate_id, is_nil}

abbrev pub scope_global : Chars
scope_global = codes "global"

abbrev pub scope_repo : Chars
scope_repo = codes "repo"

abbrev pub is_valid_scope : Chars → Bool
is_valid_scope s = same_text s scope_global || same_text s scope_repo

pub record Ref : Type 0 where
  pub scope : Chars
  pub root : Chars
  pub id : Chars

unfoldable pub qualified : Ref → Chars
qualified r = r.scope ++ b':' ∷ r.id

-- What stands before and behind the first colon.
unfoldable pub cut_colon : Chars → Option (Chars × Chars)
cut_colon [] = none
cut_colon (c ∷ s) =
    let later : Option (Chars × Chars) = elim (cut_colon s) [
      | none ↦ none
      | some p ↦ some (c ∷ p.0, p.1)
    ] in
    if c == b':' then some ([], s) else later

-- The name's parts, if the scope and the id are valid.
unfoldable pub ref_of : Chars → Chars → Option Ref
unfolding validate_id
ref_of scope id =
    if is_valid_scope scope
    then elim (validate_id id) [
      | ok u ↦ some (record { scope = scope; root = []; id = id })
      | err e ↦ none
    ]
    else none

unfoldable pub parse_qualified : Chars → Option Ref
unfolding cut_colon ref_of
parse_qualified s = elim (cut_colon s) [ none ↦ none | some p ↦ ref_of p.0 p.1 ]

pub data ResolveError : Type 0 where
  no_match : ResolveError
  ambiguous : List Ref → ResolveError

unfoldable pub first_in_repo : Chars → List Ref → Option Ref
first_in_repo root [] = none
first_in_repo root (c ∷ cs) =
    if same_text c.scope scope_repo && same_text c.root root then some c else first_in_repo root cs

-- `Resolve`
unfoldable pub resolve_ref : List Ref → Chars → Result ResolveError Ref
unfolding first_in_repo
resolve_ref [] root = err no_match
resolve_ref (c ∷ []) root = ok c
resolve_ref (c ∷ d ∷ cs) root =
    if is_nil root then err (ambiguous (c ∷ d ∷ cs)) else elim (first_in_repo root (c ∷ d ∷ cs)) [
      | none ↦ err (ambiguous (c ∷ d ∷ cs))
      | some r ↦ ok r
    ]
