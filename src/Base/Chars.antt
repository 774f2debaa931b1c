-- ===== src/Base/Chars.antt =====
-- Texts that the program walks, as lists of code points, and what it uses of Go's `strings`.
use Prim.Native.Char.{code}
use mathlib.Core.List.{reverse}
use squad.Base.{
  ltb, String, ◌+◌, ◌-◌, ◌/◌, ◌%◌, ◌↔◌, ℕ, ◌≡◌, refl, List, [], ◌∷◌, ◌++◌, Bool, true, false, ◌&&◌,
  ◌||◌, leb, ◌==◌, arith, if◌then◌else◌,
}

abbrev pub Chars : Type 0
Chars = List ℕ

-- A code point in UTF-8.
unfoldable pub utf8 : ℕ → Chars
utf8 c =
    if ltb c 0x80
    then c ∷ []
    else if ltb c 0x800
    then (0xc0 + c / 64) ∷ (0x80 + c % 64) ∷ []
    else if ltb c 0x10000
    then (0xe0 + c / 4096) ∷ (0x80 + c / 64 % 64) ∷ (0x80 + c % 64) ∷ []
    else (0xf0 + c / 262144) ∷ (0x80 + c / 4096 % 64) ∷ (0x80 + c / 64 % 64) ∷ (0x80 + c % 64) ∷ []

-- The bytes of a Go string.
unfoldable pub bytes : String → Chars
unfolding utf8
bytes String.[] = []
bytes (String.◌∷◌ c s) = utf8 (code c) ++ bytes s

-- `strings.HasPrefix`
unfoldable pub has_prefix : Chars → Chars → Bool
has_prefix s [] = true
has_prefix [] (q ∷ p) = false
has_prefix (c ∷ s) (q ∷ p) = c == q && has_prefix s p

-- `strings.Contains`
unfoldable pub contains_text : Chars → Chars → Bool
unfolding has_prefix
contains_text [] p = has_prefix [] p
contains_text (c ∷ s) p = has_prefix (c ∷ s) p || contains_text s p

-- `==` on texts
unfoldable pub same_text : Chars → Chars → Bool
same_text [] [] = true
same_text [] (d ∷ t) = false
same_text (c ∷ s) [] = false
same_text (c ∷ s) (d ∷ t) = c == d && same_text s t

-- `strings.ToLower` and `strings.ToUpper`, on the letters of ASCII.
abbrev pub lower : ℕ → ℕ
lower c = if leb 65 c && leb c 90 then c + 32 else c

abbrev pub upper : ℕ → ℕ
upper c = if leb 97 c && leb c 122 then c - 32 else c

-- `unicode.IsSpace`
unfoldable pub is_space : ℕ → Bool
is_space c =
    (leb 9 c && leb c 13)
    || c == 32
    || c == 0x85
    || c == 0xa0
    || c == 0x1680
    || (leb 0x2000 c && leb c 0x200a)
    || c == 0x2028
    || c == 0x2029
    || c == 0x202f
    || c == 0x205f
    || c == 0x3000

unfoldable pub drop_spaces : Chars → Chars
unfolding is_space
drop_spaces [] = []
drop_spaces (c ∷ s) = let rest = drop_spaces s in if is_space c then rest else c ∷ s

-- `strings.TrimSpace`
unfoldable pub trim_space : Chars → Chars
unfolding drop_spaces
trim_space s = reverse (drop_spaces (reverse (drop_spaces s)))

pub has_prefix-append : (p rest : Chars) → has_prefix (p ++ rest) p ≡ true
unfolding has_prefix
has_prefix-append [] rest = refl
has_prefix-append (c ∷ p) rest = ground (arith, has_prefix-append p rest)

pub has_prefix-same : (s t : Chars) → same_text s t ≡ true → has_prefix s t ≡ true
unfolding has_prefix same_text
has_prefix-same [] [] h = refl
has_prefix-same [] (d ∷ t) h = h
has_prefix-same (c ∷ s) [] h = refl
has_prefix-same (c ∷ s) (d ∷ t) h = ground (arith, has_prefix-same s t)

pub same_text_iff : (s t : Chars) → (same_text s t ≡ true) ↔ (s ≡ t)
unfolding same_text
same_text_iff [] [] = ((λ h. refl), λ h. refl)
same_text_iff [] (d ∷ t) = ((λ h. absurd (cc)), λ h. absurd (cc))
same_text_iff (c ∷ s) [] = ((λ h. absurd (cc)), λ h. absurd (cc))
same_text_iff (c ∷ s) (d ∷ t) = (
  λ h. cons_path (ground arith) ((same_text_iff s t).0 (ground arith)),
  λ h. ground (arith, (same_text_iff s t).1 (ground arith)),
)
  where
    cons_path : {c d : ℕ} {s t : Chars} → c ≡ d → s ≡ t → ◌≡◌ {A = Chars} (c ∷ s) (d ∷ t)
    cons_path p q = λ i. p i ∷ q i

-- Two prefixes of one text: one is a prefix of the other.
pub prefixes_nest :
    (s p q : Chars)
    → has_prefix s p ≡ true
    → has_prefix s q ≡ true
    → (has_prefix p q || has_prefix q p) ≡ true
unfolding has_prefix
prefixes_nest s [] [] h k = refl
prefixes_nest s [] (d ∷ q) h k = refl
prefixes_nest s (c ∷ p) [] h k = refl
prefixes_nest [] (c ∷ p) (d ∷ q) h k = cc
prefixes_nest (x ∷ s) (c ∷ p) (d ∷ q) h k = ground (arith, prefixes_nest s p q)
