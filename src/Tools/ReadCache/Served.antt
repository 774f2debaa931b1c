-- ===== src/Tools/ReadCache/Served.antt =====
-- When the read cache sends the content of a file, and when only a notice.
use squad.Base.{
  ap, ◌↔◌, ◌≤◌, ◌≡◌, ◌≢◌, refl, sym, ◌∙◌, subst, inl, inr, String, true, false, Option, none, some,
  Bool-cases, arith, if◌then◌else◌,
}
use mathlib.Core.Option.{some-injective}
use squad.Base.Text.{◌==◌, eq_iff, eq_refl}
use squad.Base.Chars.{Chars}
use squad.Base.Dict.{lookup, insert, lookup-insert}
use squad.Tools.ReadCache.{
  ReadCache, ReadCacheEntry, FileRead, bump_compaction_epoch, same_hash, check,
  is_stale_after_compaction, store, store_read, increment_streak, serve_notice, answer,
  check_read_cache,
}

-- No entry comes from a later compaction than the last.
abbrev pub IsCurrent : ReadCache → Type 0
IsCurrent rc =
    (path : String) (entry : ReadCacheEntry)
    → lookup path rc.entries ≡ some entry
    → entry.compaction_epoch ≤ rc.compaction_epoch

-- The cache has an entry for the file's content as it is now, since the last compaction counted.
abbrev pub IsServed : FileRead → ReadCache → Type 0
IsServed f rc =
    (entry : ReadCacheEntry) × (lookup f.resolved_path rc.entries ≡ some entry)
    × (entry.content_hash ≡ f.hash)
    × (entry.compaction_epoch ≡ rc.compaction_epoch)

abbrev entry_of : FileRead → ReadCache → ReadCacheEntry
entry_of f rc = record {
  content_hash = f.hash;
  lines = f.lines;
  size = f.size;
  iteration = f.iteration;
  summary = f.summary;
  compaction_epoch = rc.compaction_epoch;
}

store_read-IsServed : (f : FileRead) (rc : ReadCache) → IsServed f (store_read f rc)
unfolding store_read store
store_read-IsServed f rc = (entry_of f rc, stored, refl, refl)
  where
    stored :
        lookup f.resolved_path (insert f.resolved_path (entry_of f rc) rc.entries)
        ≡ some (entry_of f rc)
    stored =
        lookup-insert f.resolved_path f.resolved_path (entry_of f rc) rc.entries
        ∙ rw (eq_refl f.resolved_path) refl

store_read-IsCurrent : (f : FileRead) (rc : ReadCache) → IsCurrent rc → IsCurrent (store_read f rc)
unfolding store_read store
store_read-IsCurrent f rc cur path entry h = elim (Bool-cases (f.resolved_path == path)) [
  | inl e ↦
      let same : entry_of f rc ≡ entry = some-injective _ _ (sym (found ∙ rw e refl) ∙ h) in
      subst (λ (x : ReadCacheEntry). x.compaction_epoch ≤ rc.compaction_epoch) same (omega arith)
  | inr e ↦ cur path entry (sym (found ∙ rw e refl) ∙ h)
]
  where
    found :
        lookup path (insert f.resolved_path (entry_of f rc) rc.entries)
        ≡ (if f.resolved_path == path then some (entry_of f rc) else lookup path rc.entries)
    found = lookup-insert f.resolved_path path (entry_of f rc) rc.entries

-- What is known of the answer of `Check`.
abbrev Found : FileRead → ReadCache → Option ReadCacheEntry → Type 0
Found f rc none = IsServed f rc → ⊥
Found f rc (some entry) =
    (lookup f.resolved_path rc.entries ≡ some entry) × (entry.content_hash ≡ f.hash)

check-Found :
    (f : FileRead) (rc : ReadCache) (o : Option ReadCacheEntry)
    → lookup f.resolved_path rc.entries ≡ o
    → Found f rc (same_hash f.hash o)
unfolding same_hash
check-Found f rc none e = λ (entry, at, h, now). absurd (none-ne-some entry (sym e ∙ at))
  where
    none-ne-some : (x : ReadCacheEntry) → ◌≡◌ {A = Option ReadCacheEntry} none (some x) → ⊥
    none-ne-some x p = cc
check-Found f rc (some entry) e = elim (Bool-cases (entry.content_hash == f.hash)) [
  | inl t ↦ rw t (e, (eq_iff _ _).0 t)
  | inr t ↦ rw t λ (other, at, h, now).
      let same : entry ≡ other = some-injective _ _ (sym e ∙ at) in
      let equal : entry.content_hash ≡ f.hash =
        ap (λ (x : ReadCacheEntry). x.content_hash) same ∙ h in
      let both : (entry.content_hash == f.hash) ≡ true = (eq_iff _ _).1 equal in
      absurd (let k : true ≡ false = sym both ∙ t in cc)
]

-- The answer, the cache afterwards, and what it knows.
abbrev Answers : FileRead → ReadCache → ReadCache × Option Chars → Type 0
Answers f rc r = ((r.1 ≢ none) ↔ IsServed f rc) × IsServed f r.0 × IsCurrent r.0

answer-Answers :
    (f : FileRead) (rc : ReadCache) (o : Option ReadCacheEntry)
    → IsCurrent rc
    → Found f rc o
    → Answers f rc (answer f rc o)
unfolding answer
answer-Answers f rc none cur h = (
  ((λ sent. absurd (sent refl)), λ served. absurd (h served)),
  store_read-IsServed f rc,
  store_read-IsCurrent f rc cur,
)
answer-Answers f rc (some entry) cur (at, same) =
    elim (Bool-cases (is_stale_after_compaction rc entry)) [
      | inl old ↦ rw old (
        (
          (λ sent. absurd (sent refl)),
          λ (other, there, h, now).
              let that : entry ≡ other = some-injective _ _ (sym at ∙ there) in
              absurd (unfold is_stale_after_compaction in ground arith),
        ),
        store_read-IsServed f rc,
        store_read-IsCurrent f rc cur,
      )
      | inr new ↦
          let le = cur f.resolved_path entry at in
          let now : entry.compaction_epoch ≡ rc.compaction_epoch =
            unfold is_stale_after_compaction in ground arith in
          rw new (
            unfold serve_notice increment_streak in
            (
              ((λ sent. (entry, at, same, now)), λ served e. absurd (cc)),
              (entry, at, same, now),
              cur,
            ))
    ]

-- A read of a file without a range gets a notice in place of the content exactly if the cache has an
-- entry for the path with the hash of the content as it is now and the number of the last compaction
-- that was counted; after the read it has such an entry, either way, until the next compaction is
-- counted, after which the content is sent again. The cache must hold no entry from a compaction to
-- come, and it holds none afterwards. Rolling compaction is not counted.
pub check_read_cache_lem :
    (f : FileRead) (rc : ReadCache)
    → IsCurrent rc
    → (((check_read_cache f rc).1 ≢ none) ↔ IsServed f rc)
      × IsServed f (check_read_cache f rc).0
      × IsCurrent (check_read_cache f rc).0
      × (IsServed f (bump_compaction_epoch (check_read_cache f rc).0) → ⊥)
unfolding check_read_cache check bump_compaction_epoch
check_read_cache_lem f rc cur =
    let found = lookup f.resolved_path rc.entries in
    let (sends, serves, current) =
      answer-Answers f rc (same_hash f.hash found) cur (check-Found f rc found refl) in
    (
      sends,
      serves,
      current,
      λ (entry, at, h, now). let le = current f.resolved_path entry at in absurd (omega arith),
    )
