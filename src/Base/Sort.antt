-- ===== src/Base/Sort.antt =====
-- Texts in order: the sort of tools/efficiency.go, and `strings.Join`.
use squad.Base.{List, [], ◌∷◌, ◌++◌, Bool, true, false, ltb, if◌then◌else◌}
use squad.Base.{◌==◌ as nat_eq}
use squad.Base.Chars.{Chars}

-- `<` on strings, which compares bytes.
unfoldable pub text_lt : Chars → Chars → Bool
text_lt s [] = false
text_lt [] (d ∷ t) = true
text_lt (c ∷ s) (d ∷ t) =
    let later = text_lt s t in if ltb c d then true else if nat_eq c d then later else false

-- The inner loop: the new key moves down past the greater ones.
unfoldable pub insert_key : Chars → List Chars → List Chars
unfolding text_lt
insert_key k [] = k ∷ []
insert_key k (j ∷ js) = let later = insert_key k js in if text_lt k j then k ∷ j ∷ js else j ∷ later

unfoldable pub insertion_sort : List Chars → List Chars → List Chars
unfolding insert_key
insertion_sort sorted [] = sorted
insertion_sort sorted (k ∷ ks) = insertion_sort (insert_key k sorted) ks

unfoldable pub join : Chars → List Chars → Chars
join sep [] = []
join sep (s ∷ []) = s
join sep (s ∷ t ∷ ts) = s ++ sep ++ join sep (t ∷ ts)
