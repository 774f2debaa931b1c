-- ===== src/Tools/CmdSafety/Disjoint.antt =====
-- No command is on both lists of tools/cmdsafety.go.
use squad.Base.{◌≡◌, refl, List, [], ◌∷◌, Bool, true, false, not, ◌&&◌, ◌||◌, some, arith}
use squad.Base.Chars.{Chars, has_prefix, has_prefix-same, prefixes_nest, trim_space}
use squad.Tools.CmdSafety.{
  safe_commands, blocked_commands, bare_commands, any_prefix, any_same, is_safe_command,
  first_prefix, is_blocked_command,
}

apart : Chars → Chars → Bool
unfolding has_prefix
apart p q = not (has_prefix p q || has_prefix q p)

apart_all : Chars → List Chars → Bool
unfolding apart
apart_all p [] = true
apart_all p (q ∷ qs) = apart p q && apart_all p qs

tables_apart : List Chars → List Chars → Bool
unfolding apart_all
tables_apart [] qs = true
tables_apart (p ∷ ps) qs = apart_all p qs && tables_apart ps qs

not_apart : (s p q : Chars) → has_prefix s p ≡ true → has_prefix s q ≡ true → apart p q ≡ false
unfolding apart
not_apart s p q h k = ground (arith, prefixes_nest s p q h k)

apart_all_sound :
    (s p : Chars) (qs : List Chars)
    → has_prefix s p ≡ true
    → apart_all p qs ≡ true
    → any_prefix qs s ≡ false
unfolding apart_all any_prefix
apart_all_sound s p [] h a = refl
apart_all_sound s p (q ∷ qs) h a = ground (arith, apart_all_sound s p qs, not_apart s p q h)

tables_apart_sound :
    (s : Chars) (ps qs : List Chars)
    → tables_apart ps qs ≡ true
    → any_prefix ps s ≡ true
    → any_prefix qs s ≡ false
unfolding tables_apart any_prefix
tables_apart_sound s [] qs a h = absurd (cc)
tables_apart_sound s (p ∷ ps) qs a h =
    ground (arith, apart_all_sound s p qs, tables_apart_sound s ps qs)

safe_and_blocked_apart : tables_apart blocked_commands safe_commands ≡ true
unfolding tables_apart
safe_and_blocked_apart = refl

bare_and_blocked_apart : tables_apart blocked_commands bare_commands ≡ true
unfolding tables_apart
bare_and_blocked_apart = refl

any_prefix-any_same :
    (ps : List Chars) (s : Chars) → any_prefix ps s ≡ false → any_same ps s ≡ false
unfolding any_prefix any_same
any_prefix-any_same [] s h = refl
any_prefix-any_same (p ∷ ps) s h = ground (arith, any_prefix-any_same ps s, has_prefix-same s p)

any_prefix-first_prefix :
    (ps : List Chars) (s p : Chars) → first_prefix ps s ≡ some p → any_prefix ps s ≡ true
unfolding any_prefix first_prefix
any_prefix-first_prefix [] s p h = cc
any_prefix-first_prefix (q ∷ ps) s p h = ground (arith, any_prefix-first_prefix ps s p)

-- A command that is blocked is not safe.
pub blocked_not_safe :
    (cmd p : Chars) → is_blocked_command cmd ≡ some p → is_safe_command cmd ≡ false
unfolding is_blocked_command is_safe_command
blocked_not_safe cmd p h =
    let s = trim_space cmd in
    let blocked : any_prefix blocked_commands s ≡ true =
      any_prefix-first_prefix blocked_commands s p h in
    rw (tables_apart_sound s blocked_commands safe_commands safe_and_blocked_apart blocked) (
      any_prefix-any_same bare_commands s
        (tables_apart_sound s blocked_commands bare_commands bare_and_blocked_apart blocked))
