-- ===== src/Shard/Files/Packages.antt =====
-- The groups of runner/shard.go, one for each directory.
use mathlib.Core.List.{append_assoc, append-nil}
use squad.Base.{
  ◌≡◌, refl, sym, subst, ap, ◌∙◌, ◌↔◌, ◌⊎◌, inl, inr, List, [], ◌∷◌, ◌++◌, map, true, ◌||◌,
  Bool-cases, if◌then◌else◌,
}
use squad.Base.All.{In, Distinct, In-append, In-append_left, In-append_right}
use squad.Base.Chars.{Chars, same_text, same_text_iff}
use squad.Base.Sort.{insertion_sort}
use squad.Shard.Files.{
  Groups, path_dir, group_at, append_to, has_group, group_files, group_by_package,
}
use squad.Shard.Files.Keys.{
  group_at-append_to, has_group-append_to, with_dir, with_dir_iff, with_dir-Distinct, or_true,
}
use squad.Shard.Files.Sorted.{IsSorted, insertion_sort-IsSorted, In-sort, Distinct-sort}

-- The files that stand in a directory.
unfoldable pub in_dir : Chars → List Chars → List Chars
in_dir d [] = []
in_dir d (f ∷ fs) = let rest = in_dir d fs in if same_text (path_dir f) d then f ∷ rest else rest

in_dir-append : (d : Chars) (fs gs : List Chars) → in_dir d (fs ++ gs) ≡ in_dir d fs ++ in_dir d gs
unfolding in_dir
in_dir-append d [] gs = refl
in_dir-append d (f ∷ fs) gs = elim (Bool-cases (same_text (path_dir f) d)) [
  | inl p ↦ rw p (ap (λ xs. f ∷ xs) (in_dir-append d fs gs))
  | inr n ↦ rw n (in_dir-append d fs gs)
]

-- The groups after some files: the map holds the files of each directory, and its keys are the
-- directories of these files, each once.
abbrev pub IsDirOf : List Chars → Chars → Type 0
IsDirOf fs d = (f : Chars) × In f fs × (path_dir f ≡ d)

record Grouped (fs : List Chars) (g : Groups) : Type 0 where
  files : (d : Chars) → group_at d g.groups ≡ in_dir d fs
  keys : (d : Chars) → (has_group d g.groups ≡ true) ↔ In d g.dirs
  places : (d : Chars) → In d g.dirs ↔ IsDirOf fs d
  distinct : Distinct g.dirs

Grouped-snoc :
    (fs : List Chars) (f : Chars) (g : Groups)
    → Grouped fs g
    → Grouped (fs ++ f ∷ []) (record {
      dirs = with_dir (has_group (path_dir f) g.groups) g.dirs (path_dir f);
      groups = append_to (path_dir f) f g.groups;
    })
unfolding in_dir
Grouped-snoc fs f g v = record {
  files = λ d. group_at-append_to d (path_dir f) f g.groups ∙ files_of d;
  keys = λ d. (
    λ h. (dirs_iff d).1 (known d (rw (has_group-append_to d (path_dir f) f g.groups) at h)),
    λ i. rw (has_group-append_to d (path_dir f) f g.groups) (keyed d ((dirs_iff d).0 i)),
  );
  places = λ d. (λ i. placed d ((dirs_iff d).0 i), λ i. (dirs_iff d).1 (at_place d i));
  distinct =
      with_dir-Distinct (has_group (path_dir f) g.groups) g.dirs (path_dir f) (v.keys (path_dir f))
        v.distinct;
}
  where
    dirs_iff :
        (d : Chars)
        → In d (with_dir (has_group (path_dir f) g.groups) g.dirs (path_dir f))
          ↔ (In d g.dirs ⊎ (path_dir f ≡ d))
    dirs_iff d =
        with_dir_iff (has_group (path_dir f) g.groups) g.dirs (path_dir f) d (v.keys (path_dir f))

    known :
        (d : Chars)
        → (same_text (path_dir f) d || has_group d g.groups) ≡ true
        → In d g.dirs ⊎ (path_dir f ≡ d)
    known d h = elim ((or_true (same_text (path_dir f) d) (has_group d g.groups)).0 h) [
      | inl p ↦ inl ((v.keys d).0 p)
      | inr p ↦ inr ((same_text_iff (path_dir f) d).0 p)
    ]

    keyed :
        (d : Chars)
        → In d g.dirs ⊎ (path_dir f ≡ d)
        → (same_text (path_dir f) d || has_group d g.groups) ≡ true
    keyed d (inl i) =
        (or_true (same_text (path_dir f) d) (has_group d g.groups)).1 (inl ((v.keys d).1 i))
    keyed d (inr e) =
        (or_true (same_text (path_dir f) d) (has_group d g.groups)).1
          (inr ((same_text_iff (path_dir f) d).1 e))

    placed : (d : Chars) → In d g.dirs ⊎ (path_dir f ≡ d) → IsDirOf (fs ++ f ∷ []) d
    placed d (inl i) = let (f', j, e) = (v.places d).0 i in (f', In-append_left f' fs (f ∷ []) j, e)
    placed d (inr e) = (f, In-append_right f fs (f ∷ []) (inl refl), e)

    at_place : (d : Chars) → IsDirOf (fs ++ f ∷ []) d → In d g.dirs ⊎ (path_dir f ≡ d)
    at_place d (f', i, e) = elim (In-append f' fs (f ∷ []) i) [
      | inl j ↦ inl ((v.places d).1 (f', j, e))
      | inr (inl same) ↦ inr (ap path_dir same ∙ e)
      | inr (inr j) ↦ absurd j
    ]

    last_dir :
        (d : Chars)
        → (if same_text (path_dir f) d then in_dir d fs ++ f ∷ [] else in_dir d fs)
          ≡ in_dir d fs ++ in_dir d (f ∷ [])
    last_dir d = elim (Bool-cases (same_text (path_dir f) d)) [
      | inl p ↦ rw p refl
      | inr n ↦ rw n (sym (append-nil (in_dir d fs)))
    ]

    files_of :
        (d : Chars)
        → (if same_text (path_dir f) d then group_at d g.groups ++ f ∷ [] else group_at d g.groups)
          ≡ in_dir d (fs ++ f ∷ [])
    files_of d = rw (v.files d, in_dir-append d fs (f ∷ [])) (last_dir d)

group_files-Grouped :
    (fs rest : List Chars) (g : Groups) → Grouped fs g → Grouped (fs ++ rest) (group_files g rest)
unfolding group_files with_dir
group_files-Grouped fs [] g v = subst (λ xs. Grouped xs g) (sym (append-nil fs)) v
group_files-Grouped fs (f ∷ rest) g v =
    subst (λ xs. Grouped xs (group_files g (f ∷ rest))) (append_assoc fs (f ∷ []) rest)
      (group_files-Grouped (fs ++ f ∷ []) rest _ (Grouped-snoc fs f g v))

map_groups :
    (g : Groups) (files ds : List Chars)
    → Grouped files g
    → map (λ d. group_at d g.groups) ds ≡ map (λ d. in_dir d files) ds
map_groups g files [] v = refl
map_groups g files (d ∷ ds) v = rw (v.files d, map_groups g files ds v) refl

-- By package, there is one shard for each directory that a file of the work-list stands in, in the
-- order of the directories' names, with exactly its files, in the order of the work-list.
pub group_by_package_lem :
    (files : List Chars)
    → (ds : List Chars) × IsSorted ds
      × Distinct ds
      × ((d : Chars) → In d ds ↔ IsDirOf files d)
      × (group_by_package files ≡ map (λ d. in_dir d files) ds)
unfolding group_by_package group_at has_group in_dir
group_by_package_lem files =
    let none_yet : Groups = record { dirs = []; groups = [] } in
    let start : Grouped [] none_yet = record {
      files = λ d. refl;
      keys = λ d. (λ h. absurd (cc), λ i. absurd i);
      places = λ d. (λ i. absurd i, λ (f, i, e). i);
      distinct = tt;
    } in
    let g = group_files none_yet files in
    let v = group_files-Grouped [] files none_yet start in
    (
      insertion_sort [] g.dirs,
      insertion_sort-IsSorted [] g.dirs tt,
      Distinct-sort g.dirs v.distinct,
      λ d. (
        λ i. (v.places d).0 ((In-sort d g.dirs).0 i),
        λ i. (In-sort d g.dirs).1 ((v.places d).1 i),
      ),
      map_groups g files (insertion_sort [] g.dirs) v,
    )
