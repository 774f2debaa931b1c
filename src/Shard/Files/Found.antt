-- ===== src/Shard/Files/Found.antt =====
-- What is on the work-list of runner/shard.go.
use squad.Base.{
  ◌≡◌, refl, sym, subst, ◌↔◌, ◌⊎◌, inl, inr, List, [], ◌∷◌, ◌++◌, Bool, true, false, ◌||◌, Option,
  none, some, Result, ok, err, Bool-cases, arith, bind_inv,
}
use squad.Base.All.{All, Distinct-snoc, In, Distinct, In-append, In-append_left, In-append_right}
use squad.Base.Chars.{Chars}
use squad.Base.Multiset.{holds, chars_eq}
use squad.Base.Occurs.{holds_iff}
use squad.Base.Sort.{insertion_sort}
use squad.Shard.Files.{
  any_skipped, shard_skip_dirs, split_slash, skip_path, matches_any, is_file, take_match,
  take_matches, glob_each, glob_shard_files,
}
use squad.Shard.Files.Sorted.{IsSorted, insertion_sort-IsSorted, In-sort, Distinct-sort}

or_parts : (a b c : Bool) → (a || b || c) ≡ false → (a ≡ false) × (b ≡ false) × (c ≡ false)
or_parts a b c h = ground (arith)

Result-cases : {E A : Type 0} (r : Result E A) → ((a : A) × (r ≡ ok a)) ⊎ ((e : E) × (r ≡ err e))
Result-cases (ok a) = inl (a, refl)
Result-cases (err e) = inr (e, refl)

first_part : (a b c : Bool) → (a || b || c) ≡ true → b ≡ false → c ≡ false → a ≡ true
first_part a b c h k l = ground (arith)

-- No component of the path, the last one included, is the name of a skipped directory.
abbrev pub StaysOut : Chars → Type 0
StaysOut f = All (λ s. In s shard_skip_dirs → ⊥) (split_slash [] f)

any_skipped_iff :
    (ss : List Chars) → (any_skipped ss ≡ false) ↔ All (λ s. In s shard_skip_dirs → ⊥) ss
unfolding any_skipped
any_skipped_iff [] = ((λ h. tt), λ h. refl)
any_skipped_iff (s ∷ ss) = elim (Bool-cases (holds s shard_skip_dirs)) [
  | inl e ↦ (
    (λ h. absurd (let k : true ≡ false = rw e at h in cc)),
    λ h. absurd (h.0 ((holds_iff s shard_skip_dirs).0 e)),
  )
  | inr e ↦ (
    λ h. (
      λ i. let k = (holds_iff s shard_skip_dirs).1 i in absurd (cc),
      (any_skipped_iff ss).0 (rw e at h),
    ),
    λ h. rw e ((any_skipped_iff ss).1 h.1),
  )
]

skip_path_iff : (f : Chars) → (skip_path f ≡ false) ↔ StaysOut f
unfolding skip_path
skip_path_iff f = any_skipped_iff (split_slash [] f)

module _ (match_glob : Chars → Chars → Bool) (glob : Chars → Result Chars (List Chars))
    (stat : Chars → Option Bool) (exclude : List Chars) where
  -- A path of which no component, the last one included, is the name of a skipped directory, that no
  -- pattern excludes, and that is a file.
  abbrev pub IsWanted : Chars → Type 0
  IsWanted f = StaysOut f × (matches_any match_glob f exclude ≡ false) × (stat f ≡ some false)

  is_file-some : (o : Option Bool) → is_file match_glob glob stat o ≡ true → o ≡ some false
  unfolding is_file
  is_file-some none h = absurd (cc)
  is_file-some (some true) h = absurd (cc)
  is_file-some (some false) h = refl

  not_file : (o : Option Bool) → o ≡ some false → is_file match_glob glob stat o ≡ false → ⊥
  unfolding is_file
  not_file o e m = let k : true ≡ false = rw e at m in cc

  abbrev Taken : List Chars → Chars → Type 0
  Taken out r =
      ((take_match match_glob glob stat exclude out r ≡ out) × (IsWanted r → In r out))
      ⊎ ((take_match match_glob glob stat exclude out r ≡ out ++ r ∷ [])
          × IsWanted r
          × (In r out → ⊥))

  take_match-Taken : (out : List Chars) (r : Chars) → Taken out r
  unfolding take_match
  take_match-Taken out r =
      elim (Bool-cases (holds r out || skip_path r || matches_any match_glob r exclude)) [
        | inl p ↦ rw p (inl (refl, λ w. seen w p))
        | inr n ↦
            let (new, clear, free) =
              or_parts (holds r out) (skip_path r) (matches_any match_glob r exclude) n in
            elim (Bool-cases (is_file match_glob glob stat (stat r))) [
              | inl p ↦
                  rw (n, p)
                    (inr (
                      refl,
                      ((skip_path_iff r).0 clear, free, is_file-some (stat r) p),
                      λ i. let k = (holds_iff r out).1 i in cc,
                    ))
              | inr m ↦ rw (n, m) (inl (refl, λ w. absurd (not_file (stat r) w.2 m)))
            ]
      ]
    where
      seen :
          IsWanted r
          → (holds r out || skip_path r || matches_any match_glob r exclude) ≡ true
          → In r out
      seen (s, m, _) h = (holds_iff r out).0 (
          first_part (holds r out) (skip_path r) (matches_any match_glob r exclude) h
            ((skip_path_iff r).1 s) m)

  -- `out` after some paths: what was there and the wanted ones among the paths, each once.
  record Grown (out : List Chars) (M : Chars → Type 0) (out' : List Chars) : Type 0 where
    distinct : Distinct out'
    found : (f : Chars) → In f out' → In f out ⊎ (M f × IsWanted f)
    kept : (f : Chars) → In f out → In f out'
    taken : (f : Chars) → M f → IsWanted f → In f out'

  take_matches-Grown :
      (out rs : List Chars)
      → Distinct out
      → Grown out (λ f. In f rs) (take_matches match_glob glob stat exclude out rs)
  unfolding take_matches
  take_matches-Grown out [] d = record {
    distinct = d;
    found = λ f i. inl i;
    kept = λ f i. i;
    taken = λ f i w. absurd i;
  }
  take_matches-Grown out (r ∷ rs) d = elim (take_match-Taken out r) [
    | inl (e, w) ↦
        let g = take_matches-Grown out rs d in
        rw e (record {
          distinct = g.distinct;
          found = λ f i. elim (g.found f i) [ inl j ↦ inl j | inr (j, v) ↦ inr (inr j, v) ];
          kept = g.kept;
          taken = λ f i v. elim i [
            | inl p ↦ g.kept f (subst (λ x. In x out) p (w (subst IsWanted (sym p) v)))
            | inr j ↦ g.taken f j v
          ];
        })
    | inr (e, w, n) ↦
        let g = take_matches-Grown (out ++ r ∷ []) rs (Distinct-snoc out r d n) in
        rw e (record {
          distinct = g.distinct;
          found = λ f i. elim (g.found f i) [
            | inl j ↦ elim (In-append f out (r ∷ []) j) [
              | inl k ↦ inl k
              | inr (inl p) ↦ inr (inl p, subst IsWanted p w)
              | inr (inr k) ↦ absurd k
            ]
            | inr (j, v) ↦ inr (inr j, v)
          ];
          kept = λ f i. g.kept f (In-append_left f out (r ∷ []) i);
          taken = λ f i v. elim i [
            | inl p ↦ g.kept f (In-append_right f out (r ∷ []) (inl p))
            | inr j ↦ g.taken f j v
          ];
        })
  ]

  -- A path that one of the patterns lists.
  abbrev pub IsListed : List Chars → Chars → Type 0
  IsListed ps f = (p : Chars) × In p ps × (rs : List Chars) × (glob p ≡ ok rs) × In f rs

  Grown-then :
      (out : List Chars) (p : Chars) (rs ps mid out' : List Chars)
      → glob p ≡ ok rs
      → Grown out (λ f. In f rs) mid
      → Grown mid (IsListed ps) out'
      → Grown out (IsListed (p ∷ ps)) out'
  Grown-then out p rs ps mid out' q g g' = record {
    distinct = g'.distinct;
    found = λ f i. elim (g'.found f i) [
      | inl j ↦ elim (g.found f j) [ inl k ↦ inl k | inr (k, w) ↦ inr ((p, inl refl, rs, q, k), w) ]
      | inr ((p', j, ss, q', k), w) ↦ inr ((p', inr j, ss, q', k), w)
    ];
    kept = λ f i. g'.kept f (g.kept f i);
    taken = λ f (p', i, ss, q', k) w. elim i [
      | inl same ↦ g'.kept f (g.taken f (listed f p' ss same q' k) w)
      | inr j ↦ g'.taken f (p', j, ss, q', k) w
    ];
  }
    where
      listed : (f p' : Chars) (ss : List Chars) → p ≡ p' → glob p' ≡ ok ss → In f ss → In f rs
      listed f p' ss same q' k =
          let q'' : glob p' ≡ ok rs = subst (λ x. glob x ≡ ok rs) same q in
          let e : ss ≡ rs = cc in subst (In f) e k

  glob_each-Grown :
      (out ps out' : List Chars)
      → glob_each match_glob glob stat exclude out ps ≡ ok out'
      → Distinct out
      → Grown out (IsListed ps) out'
  unfolding glob_each
  glob_each-Grown out [] out' h d =
      let same : out ≡ out' = cc in
      record {
        distinct = subst Distinct same d;
        found = λ f i. inl (subst (In f) (sym same) i);
        kept = λ f i. subst (In f) same i;
        taken = λ f (_, i, _, _, _) w. absurd i;
      }
  glob_each-Grown out (p ∷ ps) out' h d = elim (Result-cases (glob p)) [
    | inl (rs, q) ↦
        let g = take_matches-Grown out rs d in
        Grown-then out p rs ps (take_matches match_glob glob stat exclude out rs) out' q g (
          glob_each-Grown (take_matches match_glob glob stat exclude out rs) ps out'
            (rw (q, glob_each) at h) g.distinct)
    | inr (e, q) ↦
        let k : ◌≡◌ {A = Result (Chars × Chars) (List Chars)} (err (p, e)) (ok out') =
          rw (q, glob_each) at h in
        absurd (cc)
  ]

  pub glob_shard_files_lem :
      (include files : List Chars)
      → glob_shard_files match_glob glob stat include exclude ≡ ok files
      → IsSorted files
        × Distinct files
        × ((f : Chars) → In f files ↔ (IsListed include f × IsWanted f))
  unfolding glob_shard_files
  glob_shard_files_lem include files h =
      let (out, each, e) = bind_inv (glob_each match_glob glob stat exclude [] include) _ files h in
      let g = glob_each-Grown [] include out each tt in
      let same : insertion_sort [] out ≡ files = cc in
      subst
        (λ fs.
          IsSorted fs × Distinct fs × ((f : Chars) → In f fs ↔ (IsListed include f × IsWanted f)))
        same
        (
          insertion_sort-IsSorted [] out tt,
          Distinct-sort out g.distinct,
          λ f. (
            λ i. elim (g.found f ((In-sort f out).0 i)) [ inl j ↦ absurd j | inr k ↦ k ],
            λ (l, w). (In-sort f out).1 (g.taken f l w),
          ),
        )
