-- ===== src/Health.antt =====
-- src/smartwatch_clank/core/health.py: whether a catalogue may replace the last healthy one; and the
-- configuration of the runner (core/runner.py), whose ratios are exact fractions here.
pub mod Bounds
use smartwatch_clank.Base.{
  ℕ, zero, ◌*◌, String, Bool, true, false, not, ◌&&◌, ◌||◌, Option, none, some, ltb, leb,
  if◌then◌else◌, ◌==◌, nat_eq,
}
use smartwatch_clank.Base.Result.{Result, ok, err, catalogue_health_error, value_error}
use smartwatch_clank.Platform.{Platform}

pub record Ratio : Type 0 where
  pub num : ℕ
  pub den : ℕ

-- a / b < r
unfoldable pub below : ℕ → ℕ → Ratio → Bool
below a b r = ltb (a * r.den) (r.num * b)

-- r ≤ s
unfoldable pub ratio_le : Ratio → Ratio → Bool
ratio_le r s = leb (r.num * s.den) (s.num * r.den)

pub record RunnerConfig : Type 0 where
  pub unexpected_zero_is_failure : Bool
  pub catalogue_warning_ratio : Ratio
  pub catalogue_failure_ratio : Ratio

-- `RunnerConfig.__post_init__`
unfoldable pub check_config : RunnerConfig → Result RunnerConfig
unfolding ratio_le
check_config c =
    if ratio_le c.catalogue_failure_ratio c.catalogue_warning_ratio
      && ratio_le c.catalogue_warning_ratio (record { num = 1; den = 1 })
    then ok c
    else err (value_error "catalogue ratios must satisfy 0 <= failure <= warning <= 1")

abbrev pub default_config : RunnerConfig
default_config = record {
  unexpected_zero_is_failure = true;
  catalogue_warning_ratio = record { num = 3; den = 4 };
  catalogue_failure_ratio = record { num = 1; den = 2 };
}

-- the tests on the ratio, where there is a previous count
against : Platform → (current previous : ℕ) (warning failure : Ratio) → Result (Option String)
unfolding below
against p current previous warning failure =
    if below current previous failure
    then err (catalogue_health_error (p.describe_counts "catalogue collapse" current previous))
    else if below current previous warning
    then ok (some (p.describe_counts "catalogue shrink warning" current previous))
    else ok none

-- the guard on the previous count
compared : Platform → ℕ → Option ℕ → Ratio → Ratio → Result (Option String)
unfolding against
compared p current none warning failure = ok none
compared p current (some previous) warning failure =
    if previous == 0 then ok none else against p current previous warning failure

-- The result is the warning of the `HealthAssessment`.
unfoldable pub assess_catalogue :
    Platform
    → (current : ℕ) (previous : Option ℕ) (unexpected_zero_is_failure : Bool)
      (warning failure : Ratio)
    → Result (Option String)
unfolding compared
assess_catalogue p current previous zero_fails warning failure =
    if current == 0 && zero_fails
    then err (catalogue_health_error "collector unexpectedly returned zero observations")
    else compared p current previous warning failure
