-- ===== src/Shard/Files/Once.antt =====
-- Each file of the work-list of runner/shard.go is in one shard, once.
use mathlib.Core.List.{flatten}
use squad.Base.{
  ℕ, zero, suc, ◌*◌, ◌≤◌, ◌<◌, ◌≡◌, refl, ap, ◌∙◌, inl, inr, List, [], ◌∷◌, map, true, Bool-cases,
  arith, if◌then◌else◌, length,
}
use squad.Base.Int.{ℤ, pos, negsuc}
use squad.Base.All.{All}
use squad.Base.Chars.{Chars, bytes, same_text, same_text_iff}
use squad.Base.Multiset.{count, count-append, chars_eq}
use squad.Base.Occurs.{count_iff, Distinct_count}
use squad.Pipeline.Partitions.Groups.{flatten-chunks, chunks-IsGroup}
use squad.Shard.Config.{ExecutionConfig}
use squad.Shard.Files.{path_dir, group_by_package, batch_size, batch_files, shard_files}
use squad.Shard.Files.Packages.{in_dir, group_by_package_lem}

some_size : (size : ℤ) → 0 < batch_size size
unfolding batch_size
some_size (pos zero) = omega arith
some_size (pos (suc n)) = omega arith
some_size (negsuc n) = omega arith

-- Batches of files, joined, are the work-list; none is empty, and none has more files than it may.
pub batch_files_lem :
    (files : List Chars) (size : ℤ)
    → (flatten (batch_files files size) ≡ files)
      × All (λ g. (0 < length g) × (length g ≤ batch_size size)) (batch_files files size)
unfolding batch_files
batch_files_lem files size = (
  flatten-chunks (length files) (batch_size size) files (some_size size) (omega arith),
  chunks-IsGroup (length files) (batch_size size) files (some_size size),
)

count-in_dir :
    (f d : Chars) (files : List Chars)
    → count f (in_dir d files) ≡ (if same_text (path_dir f) d then count f files else 0)
unfolding count in_dir
count-in_dir f d [] = ground arith
count-in_dir f d (x ∷ xs) = elim (Bool-cases (same_text x f)) [
  | inl p ↦ elim (Bool-cases (same_text (path_dir f) d)) [
    | inl q ↦ rw (one_dir p, q, p) (ap suc (rw q at (count-in_dir f d xs)))
    | inr q ↦ rw (one_dir p, q) (rw q at (count-in_dir f d xs))
  ]
  | inr n ↦ elim (Bool-cases (same_text (path_dir x) d)) [
    | inl q ↦ rw (q, n) (count-in_dir f d xs)
    | inr q ↦ rw (q, n) (count-in_dir f d xs)
  ]
]
  where
    one_dir : same_text x f ≡ true → same_text (path_dir x) d ≡ same_text (path_dir f) d
    one_dir p = ap (λ y. same_text (path_dir y) d) ((same_text_iff x f).0 p)

same_text_sym : (s t : Chars) → same_text s t ≡ same_text t s
unfolding same_text
same_text_sym [] [] = refl
same_text_sym [] (d ∷ t) = refl
same_text_sym (c ∷ s) [] = refl
same_text_sym (c ∷ s) (d ∷ t) = ground (arith, same_text_sym s t)

-- Distinct directories: the files of one count, and those of no other.
count-dirs :
    (f : Chars) (files ds : List Chars)
    → count f (flatten (map (λ d. in_dir d files) ds)) ≡ count (path_dir f) ds * count f files
unfolding count flatten
count-dirs f files [] = omega arith
count-dirs f files (d ∷ ds) =
    rw
      (
        count-append f (in_dir d files) (flatten (map (λ d'. in_dir d' files) ds)),
        count-in_dir f d files,
        count-dirs f files ds,
        same_text_sym d (path_dir f),
      )
      (elim (Bool-cases (same_text (path_dir f) d)) [
        | inl p ↦ rw p (grind arith)
        | inr n ↦ rw n (grind arith)
      ])

one_time : (c n : ℕ) → c ≤ 1 → (0 < n → 0 < c) → c * n ≡ n
one_time c zero le h = omega arith
one_time c (suc n) le h =
    let some_dir = h (omega arith) in let one : c ≡ 1 = omega arith in rw one (omega arith)

-- Each path is as often in the shards as it is on the work-list.
pub shard_files-count :
    (files : List Chars) (exec : ExecutionConfig) (f : Chars)
    → count f (flatten (shard_files files exec)) ≡ count f files
unfolding shard_files
shard_files-count files exec f = elim (Bool-cases (same_text exec.shard_by (bytes "package"))) [
  | inl p ↦ rw p (packages)
  | inr n ↦ rw n (ap (count f) (batch_files_lem files exec.shard_batch).0)
]
  where
    packages : count f (flatten (group_by_package files)) ≡ count f files
    packages =
        let (ds, _, distinct, places, e) = group_by_package_lem files in
        rw e (
          count-dirs f files ds
          ∙ one_time (count (path_dir f) ds) (count f files)
              (Distinct_count ds distinct (path_dir f))
              (λ h.
                (count_iff (path_dir f) ds).1
                  ((places (path_dir f)).1 (f, (count_iff f files).0 h, refl))))
