-- ===== src/Tools/ReadCache.antt =====
-- tools/efficiency.go: what an agent has read in this run, so that it need not be sent again.
pub mod Served
use squad.Base.{
  ◌++◌, ℕ, ◌+◌, String, List, [], ◌∷◌, Bool, true, false, Option, none, some, ltb, length,
  if◌then◌else◌,
}
use squad.Base.Text.{◌==◌}
use squad.Base.Chars.{Chars, bytes}
use squad.Base.Dict.{Dict, lookup, insert}
use squad.Pipeline.Handoff.{decimal}

pub record ReadCacheEntry : Type 0 where
  pub content_hash : String
  pub lines : ℕ
  pub size : ℕ
  pub iteration : ℕ
  pub summary : Chars
  pub compaction_epoch : ℕ

abbrev pub cache_hit_streak_threshold : ℕ
cache_hit_streak_threshold = 3

pub record ReadCache : Type 0 where
  pub entries : Dict ReadCacheEntry
  pub cache_streak : ℕ
  pub compaction_epoch : ℕ

abbrev pub new_read_cache : ReadCache
new_read_cache = record { entries = []; cache_streak = 0; compaction_epoch = 0 }

unfoldable pub bump_compaction_epoch : ReadCache → ReadCache
bump_compaction_epoch rc = record rc { compaction_epoch = rc.compaction_epoch + 1 }

unfoldable pub has : ReadCache → String → Bool
has rc path = elim (lookup path rc.entries) [ none ↦ false | some entry ↦ true ]

unfoldable pub same_hash : String → Option ReadCacheEntry → Option ReadCacheEntry
same_hash content_hash none = none
same_hash content_hash (some entry) =
    if entry.content_hash == content_hash then some entry else none

unfoldable pub check : ReadCache → String → String → Option ReadCacheEntry
unfolding same_hash
check rc path content_hash = same_hash content_hash (lookup path rc.entries)

unfoldable pub is_stale_after_compaction : ReadCache → ReadCacheEntry → Bool
is_stale_after_compaction rc entry = ltb entry.compaction_epoch rc.compaction_epoch

unfoldable pub store : String → String → ℕ → ℕ → ℕ → Chars → ReadCache → ReadCache
store path content_hash lines size iteration summary rc = record rc {
  cache_streak = 0;
  entries =
      insert path
        (record {
          content_hash = content_hash;
          lines = lines;
          size = size;
          iteration = iteration;
          summary = summary;
          compaction_epoch = rc.compaction_epoch;
        })
        rc.entries;
}

unfoldable pub increment_streak : ReadCache → ReadCache
increment_streak rc = record rc { cache_streak = rc.cache_streak + 1 }

unfoldable pub reset_streak : ReadCache → ReadCache
reset_streak rc = record rc { cache_streak = 0 }

unfoldable pub summary_line : ReadCacheEntry → Chars
summary_line entry = elim entry.summary [
  | [] ↦ decimal entry.lines ++ bytes " lines"
  | c ∷ s ↦ decimal entry.lines ++ bytes " lines; " ++ c ∷ s
]

unfoldable pub summaries_of : Dict ReadCacheEntry → Dict Chars
unfolding summary_line
summaries_of [] = []
summaries_of ((path, entry) ∷ m) = (path, summary_line entry) ∷ summaries_of m

unfoldable pub summaries : ReadCache → Dict Chars
unfolding summaries_of
summaries rc = summaries_of rc.entries

unfoldable pub size_of : ReadCache → ℕ
size_of rc = length rc.entries

unfoldable pub loop_notice : ℕ → String → ReadCacheEntry → Chars
loop_notice streak display_path entry =
    bytes "[READ LOOP DETECTED — "
    ++ decimal streak
    ++ bytes
        " consecutive re-reads of cached files. Read is disabled until you make an Edit or Write call. File '"
    ++ bytes display_path
    ++ bytes "' unchanged since iteration "
    ++ decimal entry.iteration
    ++ bytes " ("
    ++ decimal entry.lines
    ++ bytes " lines). Use your notes to write Edit calls NOW.]"

unfoldable pub summary_hint : Chars → Chars
summary_hint [] = []
summary_hint (c ∷ s) = bytes " Content summary: " ++ (c ∷ s) ++ bytes "."

unfoldable pub hit_notice : String → ReadCacheEntry → Chars
unfolding summary_hint
hit_notice display_path entry =
    bytes "[CACHE HIT — file '"
    ++ bytes display_path
    ++ bytes "' unchanged since iteration "
    ++ decimal entry.iteration
    ++ bytes " ("
    ++ decimal entry.lines
    ++ bytes " lines, "
    ++ decimal entry.size
    ++ bytes " bytes)."
    ++ summary_hint entry.summary
    ++ bytes " Content was already provided. Write edits from your notes — do NOT re-read.]"

-- A file as `checkReadCache` is asked about it; `hash` is the digest of its content, `summary` what
-- `GenerateFileSummary` makes of it.
pub record FileRead : Type 0 where
  pub resolved_path : String
  pub display_path : String
  pub hash : String
  pub lines : ℕ
  pub size : ℕ
  pub iteration : ℕ
  pub summary : Chars

unfoldable pub store_read : FileRead → ReadCache → ReadCache
store_read f rc = store f.resolved_path f.hash f.lines f.size f.iteration f.summary rc

-- A hit on content that is still in the conversation.
unfoldable pub serve_notice : FileRead → ReadCacheEntry → ReadCache → ReadCache × Option Chars
unfolding loop_notice hit_notice
serve_notice f entry rc = (
  increment_streak rc,
  some (
      if ltb (rc.cache_streak + 1) cache_hit_streak_threshold
      then hit_notice f.display_path entry
      else loop_notice (rc.cache_streak + 1) f.display_path entry),
)

unfoldable pub answer : FileRead → ReadCache → Option ReadCacheEntry → ReadCache × Option Chars
unfolding store_read serve_notice
answer f rc none = (store_read f rc, none)
answer f rc (some entry) =
    if is_stale_after_compaction rc entry then (store_read f rc, none) else serve_notice f entry rc

-- The cache afterwards, and the notice in place of the content; `none` if the content is to be sent.
unfoldable pub check_read_cache : FileRead → ReadCache → ReadCache × Option Chars
unfolding answer
check_read_cache f rc = answer f rc (check rc f.resolved_path f.hash)
