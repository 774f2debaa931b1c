-- ===== src/Routine/Scope/Names.antt =====
-- The names of routine/scope.go and routine/manifest.go, written and read.
use squad.Base.{
  ltb, ◌≤◌, ◌&&◌, ◌≤◌, ok, refuse_inv, refuse_passed, ℕ, ◌-◌, ◌≡◌, refl, sym, subst, ap, ◌∙◌, ◌⊎◌,
  inl, inr, [], ◌∷◌, ◌++◌, Bool, true, false, not, ◌||◌, some, length, take, length-append,
  drop-append, arith, leb, ◌==◌,
}
use squad.Base.All.{All}
use squad.Base.Chars.{Chars, same_text, same_text_iff}
use squad.Routine.Manifest.{
  is_alnum, slug_tail, is_slug, validate_id, yaml, file_name, has_suffix, id_from_file_name,
}
use squad.Routine.Scope.{
  scope_global, scope_repo, is_valid_scope, Ref, qualified, cut_colon, ref_of, parse_qualified,
}

either : (a b : Bool) → (a || b) ≡ true → (a ≡ true) ⊎ (b ≡ true)
either a b h = ground arith

cut_at :
    (scope id : Chars)
    → is_valid_scope scope ≡ true
    → cut_colon (scope ++ b':' ∷ id) ≡ some (scope, id)
unfolding cut_colon
cut_at scope id h = elim (either (same_text scope scope_global) (same_text scope scope_repo) h) [
  | inl e ↦
      subst (λ s. cut_colon (s ++ b':' ∷ id) ≡ some (s, id))
        (sym ((same_text_iff scope scope_global).0 e)) refl
  | inr e ↦
      subst (λ s. cut_colon (s ++ b':' ∷ id) ≡ some (s, id))
        (sym ((same_text_iff scope scope_repo).0 e)) refl
]

-- A reference with a valid scope and a valid id, written as `scope:id`, is read back without its root.
pub parse_qualified-qualified :
    (r : Ref)
    → is_valid_scope r.scope ≡ true
    → validate_id r.id ≡ ok tt
    → parse_qualified (qualified r) ≡ some (record { scope = r.scope; root = []; id = r.id })
unfolding parse_qualified qualified ref_of
parse_qualified-qualified r scope id =
    rw (cut_at r.scope r.id scope, parse_qualified) (rw (scope, id) refl)

-- A character of an id.
abbrev pub IsIdChar : ℕ → Type 0
IsIdChar c = (is_alnum c || c == b'-') ≡ true

slug_tail_chars : (s : Chars) → slug_tail s ≡ true → All IsIdChar s
unfolding slug_tail
slug_tail_chars [] h = tt
slug_tail_chars (c ∷ []) h = (ground arith, tt)
slug_tail_chars (c ∷ d ∷ s) h = (ground arith, slug_tail_chars (d ∷ s) (ground arith))

is_slug_chars : (s : Chars) → is_slug s ≡ true → All IsIdChar s
unfolding is_slug
is_slug_chars [] h = tt
is_slug_chars (c ∷ []) h = (ground arith, tt)
is_slug_chars (c ∷ d ∷ s) h = (ground arith, slug_tail_chars (d ∷ s) (ground arith))

not-not : (b : Bool) → not b ≡ false → b ≡ true
not-not b h = ground arith

short : (n : ℕ) → ltb 64 n ≡ false → n ≤ 64
short n h = ground arith

-- A valid id has 64 characters at most, and no other than a-z, 0-9 and the hyphen: it is one component
-- of a path, and neither `.` nor `..`.
pub validate_id_chars : (id : Chars) → validate_id id ≡ ok tt → (length id ≤ 64) × All IsIdChar id
unfolding validate_id
validate_id_chars id h =
    let (a, h1) = refuse_inv _ _ _ _ h in
    let (b, h2) = refuse_inv _ _ _ _ h1 in
    (short (length id) b, is_slug_chars id (not-not (is_slug id) (refuse_passed _ _ h2)))

take-append : (xs ys : Chars) → take (length xs) (xs ++ ys) ≡ xs
take-append [] ys = refl
take-append (x ∷ xs) ys = rw (take-append xs ys)

stem : (id : Chars) → length (id ++ yaml) - length yaml ≡ length id
stem id = omega (arith, length-append id yaml)

cut_stem : (id : Chars) → take (length (id ++ yaml) - length yaml) (id ++ yaml) ≡ id
cut_stem id = ap (λ k. take k (id ++ yaml)) (stem id) ∙ take-append id yaml

has_suffix-append : (id : Chars) → has_suffix (id ++ yaml) yaml ≡ true
unfolding has_suffix same_text
has_suffix-append id = rw (stem id) (rw (drop-append id yaml) (long_enough id))
  where
    long_enough : (id : Chars) → (leb (length yaml) (length (id ++ yaml)) && true) ≡ true
    long_enough id = ground (arith, length-append id yaml)

-- The name of a routine's file gives back the routine's id, if that is valid.
pub id_from_file_name-file_name :
    (id : Chars) → validate_id id ≡ ok tt → id_from_file_name (file_name id) ≡ id
unfolding id_from_file_name file_name
id_from_file_name-file_name id h = rw (has_suffix-append id) (rw (cut_stem id) (rw h (cut_stem id)))
