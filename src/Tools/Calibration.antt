-- ===== src/Tools/Calibration.antt =====
-- tools/efficiency.go: estimates of tokens, and the threshold of a compaction.
use squad.Tools.Rolling.{context_token_threshold}
use squad.Base.{ℕ, zero, suc, ◌+◌, Bool, Option, none, some, if◌then◌else◌}

-- `TokenCalibration`
pub record TokenCalibration : Type 0 where
  pub total_est : ℕ
  pub total_actual : ℕ
  pub samples : ℕ

abbrev pub no_calibration : TokenCalibration
no_calibration = record { total_est = 0; total_actual = 0; samples = 0 }

-- `Record`, of a positive number of tokens.
unfoldable pub record_sample : ℕ → ℕ → TokenCalibration → TokenCalibration
record_sample estimated zero tc = tc
record_sample estimated (suc actual) tc = record {
  total_est = tc.total_est + estimated;
  total_actual = tc.total_actual + suc actual;
  samples = tc.samples + 1;
}

-- What the threshold asks of the metrics: whether there is a limit on the cost, and whether that
-- share of it, in percent, is used up.
pub record BudgetUse : Type 0 where
  pub limited : Bool
  pub used : ℕ → Bool

unfoldable pub adaptive_compaction_threshold : Option BudgetUse → ℕ
adaptive_compaction_threshold none = context_token_threshold
adaptive_compaction_threshold (some m) =
    if m.limited
    then if m.used 75 then 30000 else if m.used 50 then 40000 else context_token_threshold
    else context_token_threshold
