-- ===== src/Runner/Attempts.antt =====
-- core/runner.py: what an attempt that raises nothing has worked out.
use smartwatch_clank.Base.{
  ℕ, String, ◌≡◌, false, not, Option, [], map, any_of, if◌then◌else◌, ◌==◌, string_eq, arith,
}
use smartwatch_clank.Base.Result.{ok}
use smartwatch_clank.Platform.{Platform}
use smartwatch_clank.Diff.{Catalogue, diff_catalogues}
use smartwatch_clank.Health.{RunnerConfig}
use smartwatch_clank.Registry.{Collector}
use smartwatch_clank.Runner.{Attempt, attempt, has_duplicates, is_none}
use smartwatch_clank.Store.Runs.{by_identity}

-- What is known of the parts of an attempt.
pub record Attempted (c : Collector) (previous : Catalogue) (count : Option ℕ) (clock : String → ℕ)
    (a : Attempt) : Type 0 where
  pub collected : c.result ≡ ok a.result
  pub own : any_of (λ o. not (o.collector == c.name)) a.result.observations ≡ false
  pub distinct : has_duplicates (map (λ o. o.identity) a.result.observations) ≡ false
  pub baseline : a.baseline ≡ is_none count
  pub discoveries : a.discoveries ≡ (
      if is_none count
      then []
      else diff_catalogues clock previous (by_identity a.result.observations))

pub attempt_lem :
    (p : Platform) (config : RunnerConfig) (c : Collector) (previous : Catalogue) (count : Option ℕ)
    (clock : String → ℕ) (a : Attempt)
    → attempt p config c previous count clock ≡ ok a
    → Attempted c previous count clock a
unfolding attempt
attempt_lem p config c previous count clock a h = record {
  collected = ground arith;
  own = ground arith;
  distinct = ground arith;
  baseline = ground arith;
  discoveries = ground arith;
}
