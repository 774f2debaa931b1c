-- ===== src/Shard/Files/Sorted.antt =====
-- The sort of the work-list and of the directories of runner/shard.go.
use squad.Base.{◌+◌, ◌≡◌, refl, ◌↔◌, inl, inr, List, [], ◌∷◌, true, false, Bool-cases, arith}
use squad.Base.All.{In, Distinct}
use squad.Base.Chars.{Chars}
use squad.Base.Multiset.{count, chars_eq}
use squad.Base.Occurs.{count_iff, Distinct_count, Distinct-of_count}
use squad.Base.Sort.{text_lt, insert_key, insertion_sort}

-- No text is less than the one before it.
abbrev pub Starts : Chars → List Chars → Type 0
Starts a [] = Unit
Starts a (b ∷ ts) = text_lt b a ≡ false

abbrev pub IsSorted : List Chars → Type 0
IsSorted [] = Unit
IsSorted (a ∷ ts) = Starts a ts × IsSorted ts

text_lt_asym : (s t : Chars) → text_lt s t ≡ true → text_lt t s ≡ false
unfolding text_lt
text_lt_asym s [] h = absurd (cc)
text_lt_asym [] (d ∷ t) h = refl
text_lt_asym (c ∷ s) (d ∷ t) h = ground (arith, text_lt_asym s t)

Starts-insert_key :
    (a k : Chars) (ts : List Chars) → Starts a ts → text_lt k a ≡ false → Starts a (insert_key k ts)
unfolding insert_key
Starts-insert_key a k [] s h = h
Starts-insert_key a k (j ∷ js) s h = elim (Bool-cases (text_lt k j)) [
  | inl p ↦ rw p h
  | inr n ↦ rw n s
]

insert_key-IsSorted : (k : Chars) (ts : List Chars) → IsSorted ts → IsSorted (insert_key k ts)
unfolding insert_key
insert_key-IsSorted k [] s = (tt, tt)
insert_key-IsSorted k (j ∷ js) s = elim (Bool-cases (text_lt k j)) [
  | inl p ↦ rw p (text_lt_asym k j p, s)
  | inr n ↦ rw n (Starts-insert_key j k js s.0 n, insert_key-IsSorted k js s.1)
]

pub insertion_sort-IsSorted :
    (sorted ks : List Chars) → IsSorted sorted → IsSorted (insertion_sort sorted ks)
unfolding insertion_sort
insertion_sort-IsSorted sorted [] s = s
insertion_sort-IsSorted sorted (k ∷ ks) s =
    insertion_sort-IsSorted (insert_key k sorted) ks (insert_key-IsSorted k sorted s)

count-insert_key : (a k : Chars) (ts : List Chars) → count a (insert_key k ts) ≡ count a (k ∷ ts)
unfolding insert_key count
count-insert_key a k [] = refl
count-insert_key a k (j ∷ js) = ground (arith, count-insert_key a k js)

pub count-insertion_sort :
    (a : Chars) (sorted ks : List Chars)
    → count a (insertion_sort sorted ks) ≡ count a ks + count a sorted
unfolding insertion_sort count
count-insertion_sort a sorted [] = omega arith
count-insertion_sort a sorted (k ∷ ks) =
    ground (arith, count-insertion_sort a (insert_key k sorted) ks, count-insert_key a k sorted)

-- The sort keeps what is in the list, and repeats nothing.
pub In-sort : (a : Chars) (ks : List Chars) → In a (insertion_sort [] ks) ↔ In a ks
unfolding count
In-sort a ks =
    let same = count-insertion_sort a [] ks in
    (
      λ i.
          (count_iff a ks).0
            (let k = (count_iff a (insertion_sort [] ks)).1 i in omega (arith, same)),
      λ i.
          (count_iff a (insertion_sort [] ks)).0
            (let k = (count_iff a ks).1 i in omega (arith, same)),
    )

pub Distinct-sort : (ks : List Chars) → Distinct ks → Distinct (insertion_sort [] ks)
unfolding count
Distinct-sort ks d = Distinct-of_count (insertion_sort [] ks) (λ a.
    let same = count-insertion_sort a [] ks in
    let once = Distinct_count ks d a in omega (arith, same))
