-- ===== src/Shard/Config.antt =====
-- The block `execution` of an agent's manifest, in agent/bundle.go.
pub mod Valid
use squad.Base.{
  zero, suc, List, [], ◌∷◌, Bool, true, false, not, ◌&&◌, ◌||◌, Result, ok, err, ◌>>◌, refuse_if,
  if◌then◌else◌, ◌≡◌, refl, arith,
}
use squad.Base.Int.{ℤ, pos, ltb_ℤ}
use squad.Base.Chars.{Chars, bytes, same_text}

pub record ExecutionConfig : Type 0 where
  pub shard_by : Chars
  pub glob : List Chars
  pub exclude : List Chars
  pub shard_batch : ℤ
  pub merge : Chars
  pub max_parallel : ℤ
  pub on_shard_error : Chars

pub data ConfigError : Type 0 where
  unsupported_shard_by empty_glob small_batch unsupported_merge small_parallel
        unsupported_on_error :
      ConfigError
  invalid_glob invalid_exclude : Chars → ConfigError

unfoldable pub or_default : Chars → Chars → Chars
or_default [] d = d
or_default (c ∷ s) d = c ∷ s

unfoldable pub or_one : ℤ → ℤ
or_one (pos zero) = pos 1
or_one n = n

unfoldable pub fill_defaults : ExecutionConfig → ExecutionConfig
unfolding or_default or_one
fill_defaults e = record e {
  shard_batch = or_one e.shard_batch;
  merge = or_default e.merge (bytes "json");
  max_parallel = or_one e.max_parallel;
  on_shard_error = or_default e.on_shard_error (bytes "continue");
}

unfoldable pub validate_enums : ExecutionConfig → Result ConfigError Unit
validate_enums e =
    refuse_if (ltb_ℤ e.shard_batch (pos 1)) small_batch
    >> (refuse_if (not (same_text e.merge (bytes "json")) && not (same_text e.merge (bytes "none")))
          unsupported_merge
        >> (refuse_if (ltb_ℤ e.max_parallel (pos 1)) small_parallel
            >> refuse_if
                (not (same_text e.on_shard_error (bytes "continue"))
                  && not (same_text e.on_shard_error (bytes "stop")))
                unsupported_on_error))

unfoldable pub is_empty : {A : Type 0} → List A → Bool
is_empty [] = true
is_empty (p ∷ ps) = false

-- The library of globs tells which patterns are well formed.
module _ (valid_pattern : Chars → Bool) where
  unfoldable pub check_patterns : (Chars → ConfigError) → List Chars → Result ConfigError Unit
  check_patterns invalid [] = ok tt
  check_patterns invalid (p ∷ ps) =
      refuse_if (not (valid_pattern p)) (invalid p) >> check_patterns invalid ps

  unfoldable pub validate_patterns : ExecutionConfig → Result ConfigError Unit
  unfolding check_patterns
  validate_patterns e =
      check_patterns invalid_glob e.glob >> check_patterns invalid_exclude e.exclude

  -- The block as it stands after `Validate`, which fills it in place; no block is the same as one
  -- with an empty `shard_by`.
  unfoldable pub checked : ExecutionConfig → Result ConfigError ExecutionConfig
  unfolding fill_defaults
  checked e =
      refuse_if
        (not (same_text e.shard_by (bytes "file")) && not (same_text e.shard_by (bytes "package")))
        unsupported_shard_by
      >> (refuse_if (is_empty e.glob) empty_glob
          >> (validate_patterns e >> (validate_enums (fill_defaults e) >> ok (fill_defaults e))))

  unfoldable pub validate : ExecutionConfig → Result ConfigError ExecutionConfig
  unfolding checked is_empty
  validate e = if is_empty e.shard_by then ok e else checked e
