-- ===== src/Shard/Config/Valid.antt =====
-- What the validation of the block `execution` in agent/bundle.go lets through.
use squad.Base.{
  ◌≡◌, refl, subst, ◌⊎◌, inl, inr, List, [], ◌∷◌, Bool, true, false, not, ◌&&◌, Result, ok,
  refuse_inv, refuse_passed, then_inv, Bool-cases, arith,
}
use squad.Base.Int.{ℤ, pos, ◌≤ℤ◌, ltb_ℤ}
use squad.Base.All.{All}
use squad.Base.Chars.{Chars, bytes, same_text, same_text_iff}
use squad.Shard.Config.{
  ExecutionConfig, ConfigError, fill_defaults, validate_enums, check_patterns, validate_patterns,
  checked, validate, is_empty, small_batch, unsupported_merge, small_parallel, unsupported_on_error,
  invalid_glob, invalid_exclude, empty_glob, unsupported_shard_by,
}

abbrev OneOf : Chars → Chars → Chars → Type 0
OneOf s a b = (s ≡ a) ⊎ (s ≡ b)

one_of : (s a b : Chars) → (not (same_text s a) && not (same_text s b)) ≡ false → OneOf s a b
one_of s a b h = elim (Bool-cases (same_text s a)) [
  | inl p ↦ inl ((same_text_iff s a).0 p)
  | inr n ↦ elim (Bool-cases (same_text s b)) [
    | inl q ↦ inr ((same_text_iff s b).0 q)
    | inr m ↦ absurd (let k : true ≡ false = rw (n, m) at h in cc)
  ]
]

ok_same :
    (e e' : ExecutionConfig) → ◌≡◌ {A = Result ConfigError ExecutionConfig} (ok e) (ok e') → e ≡ e'
ok_same e e' h = cc

at_least_one : (n : ℤ) → ltb_ℤ n (pos 1) ≡ false → pos 1 ≤ℤ n
at_least_one n h = ground arith

module _ (valid_pattern : Chars → Bool) where
  -- A block that a sharded run can be run by.
  pub record IsRunnable (e : ExecutionConfig) : Type 0 where
    by : OneOf e.shard_by (bytes "file") (bytes "package")
    some_glob : is_empty e.glob ≡ false
    globs : All (λ p. valid_pattern p ≡ true) e.glob
    excludes : All (λ p. valid_pattern p ≡ true) e.exclude
    pub batch : pos 1 ≤ℤ e.shard_batch
    merged : OneOf e.merge (bytes "json") (bytes "none")
    pub parallel : pos 1 ≤ℤ e.max_parallel
    on_error : OneOf e.on_shard_error (bytes "continue") (bytes "stop")

  check_patterns-valid :
      (invalid : Chars → ConfigError) (ps : List Chars)
      → check_patterns valid_pattern invalid ps ≡ ok tt
      → All (λ p. valid_pattern p ≡ true) ps
  unfolding check_patterns
  check_patterns-valid invalid [] h = tt
  check_patterns-valid invalid (p ∷ ps) h =
      let (v, more) = refuse_inv (not (valid_pattern p)) (invalid p) _ tt h in
      (is_valid (valid_pattern p) v, check_patterns-valid invalid ps more)
    where
      is_valid : (b : Bool) → not b ≡ false → b ≡ true
      is_valid true e = refl
      is_valid false e = absurd (cc)

  checked-IsRunnable : (e e' : ExecutionConfig) → checked valid_pattern e ≡ ok e' → IsRunnable e'
  unfolding checked validate_patterns validate_enums fill_defaults
  checked-IsRunnable e e' h =
      let (by, h1) = refuse_inv _ unsupported_shard_by _ e' h in
      let (glob, h2) = refuse_inv _ empty_glob _ e' h1 in
      let (patterns, h3) = then_inv (validate_patterns valid_pattern e) _ e' h2 in
      let (enums, h4) = then_inv (validate_enums (fill_defaults e)) _ e' h3 in
      let (globs, excludes) =
        then_inv (check_patterns valid_pattern invalid_glob e.glob) _ tt patterns in
      let (batch, h5) = refuse_inv _ small_batch _ tt enums in
      let (merge, h6) = refuse_inv _ unsupported_merge _ tt h5 in
      let (parallel, on_error) = refuse_inv _ small_parallel _ tt h6 in
      subst IsRunnable (ok_same (fill_defaults e) e' h4) (record {
        by = one_of _ _ _ by;
        some_glob = glob;
        globs = check_patterns-valid invalid_glob e.glob globs;
        excludes = check_patterns-valid invalid_exclude e.exclude excludes;
        batch = at_least_one _ batch;
        merged = one_of _ _ _ merge;
        parallel = at_least_one _ parallel;
        on_error = one_of _ _ _ (refuse_passed _ unsupported_on_error on_error);
      })

  -- A block for a sharded run that passes the validation names a unit, patterns and modes that the
  -- run knows, with defaults where it left them out, and at least one file in a batch and one
  -- shard at once.
  pub validate-IsRunnable :
      (e e' : ExecutionConfig)
      → validate valid_pattern e ≡ ok e'
      → is_empty e.shard_by ≡ false
      → IsRunnable e'
  unfolding validate
  validate-IsRunnable e e' h sharded = checked-IsRunnable e e' (rw sharded at h)
