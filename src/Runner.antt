-- ===== src/Runner.antt =====
-- src/smartwatch_clank/core/runner.py: one run of a collector against the store, and the runs of an
-- invocation. A `Reading` is what the host gives to one run: the clock, and fresh UUIDs.
pub mod Outcomes
pub mod Attempts
pub mod Silence
pub mod Inserts
pub mod Consistent
pub mod Machine
pub mod Each
pub mod Refine
pub mod Returns
use Prim.Native.String.{◌++◌}
use smartwatch_clank.Base.{
  ℕ, zero, suc, String, Bool, true, false, not, ◌&&◌, ◌||◌, Option, none, some, List, [], ◌∷◌, map,
  length, any_of, contains, if◌then◌else◌, ◌==◌, nat_eq, string_eq,
}
use smartwatch_clank.Base.Json.{Fields, field, end, obj, int, set_member}
use smartwatch_clank.Base.Result.{
  Exn, catalogue_health_error, source_health_error, value_error, key_error, integrity_error,
  other_error, SourceFailure, source_health, host_blocked, rate_limited, parser_failure,
  proxy_unreachable, Result, ok, err, ◌>>=◌, ◌>>◌, raise_if, recover,
}
use smartwatch_clank.Platform.{Platform}
use smartwatch_clank.Models.{
  Observation, Discovery, CollectorResult, HealthRecord, RunOutcome, RunScope,
}
use smartwatch_clank.Diff.{Catalogue, diff_catalogues}
use smartwatch_clank.Health.{RunnerConfig, assess_catalogue}
use smartwatch_clank.Registry.{Collector, Registry, selected, get, is_production}
use smartwatch_clank.Qualification.{
  ExecutionProvenance, QualificationMaterial, QualificationEpoch, identity,
  qualification_material_version,
}
use smartwatch_clank.Store.{Store, Notification}
use smartwatch_clank.Store.Runs.{
  RunRecord, by_identity, last_healthy_catalogue, has_healthy_run, save_run, save_health,
}
use smartwatch_clank.Store.Epochs.{prepare_qualification, record_qualification_terminal}

abbrev pub schema_version : ℕ
schema_version = 4

pub record RunProvenance : Type 0 where
  pub app_version : Option String
  pub config_fingerprint : Option String
  pub git_revision : Option String
  pub trigger : ExecutionProvenance

abbrev pub Intent : Type 0
Intent = Discovery → ℕ → List Notification → List Notification

pub record Runner : Type 0 where
  pub registry : Registry
  pub config : RunnerConfig
  pub provenance : RunProvenance
  pub notification_intent_factory : Collector → Option Intent

pub record Reading : Type 0 where
  pub started : ℕ
  pub finished : ℕ
  pub run_uuid : String
  pub hex : String
  pub clock : String → ℕ

abbrev pub scope_value : RunScope → String
scope_value RunScope.production = "production"
scope_value RunScope.experimental = "experimental"
scope_value RunScope.all = "all"

-- len(identities) != len(set(identities))
unfoldable pub has_duplicates : List String → Bool
has_duplicates [] = false
has_duplicates (x ∷ xs) = contains xs x || has_duplicates xs

abbrev pub failure_name : SourceFailure → String
failure_name source_health = "SourceHealthError"
failure_name host_blocked = "SourceHostBlockedError"
failure_name rate_limited = "SourceRateLimitedError"
failure_name parser_failure = "ParserFailureError"
failure_name proxy_unreachable = "ProxyUnreachableError"

-- f"{type(exc).__name__}: {exc}", with the traceback of an exception that is not of the three
-- expected kinds
unfoldable pub detail : Platform → Exn → String
detail p (catalogue_health_error m) = "CatalogueHealthError: " ++ m
detail p (source_health_error f m) = failure_name f ++ (": " ++ m)
detail p (value_error m) = "ValueError: " ++ m
detail p (key_error m) = ("KeyError: " ++ m) ++ ("\n" ++ p.traceback (key_error m))
detail p (integrity_error m) =
    ("IntegrityError: " ++ m) ++ ("\n" ++ p.traceback (integrity_error m))
detail p (other_error n m) = (n ++ (": " ++ m)) ++ ("\n" ++ p.traceback (other_error n m))

-- `if run_metadata: metadata["soak"] = run_metadata`
unfoldable pub with_soak : Fields → Fields → Fields
with_soak end metadata = metadata
with_soak (field k v fs) metadata = set_member "soak" (obj (field k v fs)) metadata

-- What the body of the `try` has worked out before it saves.
pub record Attempt : Type 0 where
  pub result : CollectorResult
  pub warning : Option String
  pub baseline : Bool
  pub discoveries : List Discovery

abbrev pub is_none : Option ℕ → Bool
is_none none = true
is_none (some n) = false

unfoldable pub attempt :
    Platform
    → RunnerConfig
    → Collector
    → (previous : Catalogue) (previous_count : Option ℕ) (clock : String → ℕ) → Result Attempt
attempt p config c previous previous_count clock = do
  result ← c.result
  raise_if (any_of (λ o. not (o.collector == c.name)) result.observations)
      (value_error "collector emitted an observation under a different collector name")
  raise_if (has_duplicates (map (λ o. o.identity) result.observations))
      (value_error "collector emitted duplicate observation identities")
  warning ←
      assess_catalogue p (length result.observations) previous_count
        (c.unexpected_zero_is_failure && config.unexpected_zero_is_failure)
        config.catalogue_warning_ratio config.catalogue_failure_ratio
  ok (record {
    result = result;
    warning = warning;
    baseline = is_none previous_count;
    discoveries =
        if is_none previous_count
        then []
        else diff_catalogues clock previous (by_identity result.observations);
  })

-- `attempted_count` when the exception is caught
unfoldable pub attempted_count : Collector → ℕ
attempted_count c = elim c.result [ ok result ↦ length result.observations | err e ↦ 0 ]

module _ (p : Platform) (runner : Runner) (scope : String) (run_metadata : Fields) (c : Collector)
    (rd : Reading) where
  unfoldable pub material : QualificationMaterial
  material = record {
    app_version = runner.provenance.app_version;
    config_fingerprint = runner.provenance.config_fingerprint;
    git_revision = runner.provenance.git_revision;
    schema_version = schema_version;
    execution_scope = scope;
    contract_version = qualification_material_version;
  }

  -- the arguments of both calls of `save_run`
  unfoldable pub run_record :
      String
      → Bool
      → List Observation
      → List Discovery
      → Option String
      → Option String
      → Fields
      → Option Intent
      → RunRecord
  unfolding material
  run_record epoch healthy observations discoveries warning error metadata intent = record {
    collector = c.name;
    started_at = rd.started;
    finished_at = rd.finished;
    healthy = healthy;
    observations = observations;
    discoveries = discoveries;
    warning = warning;
    error = error;
    metadata = metadata;
    run_uuid = some rd.run_uuid;
    app_version = runner.provenance.app_version;
    schema_version_at_run = some schema_version;
    config_fingerprint = runner.provenance.config_fingerprint;
    git_revision = runner.provenance.git_revision;
    execution_provenance = runner.provenance.trigger;
    qualification_epoch_id = some epoch;
    material_identity = some (identity p material);
    intent = intent;
  }

  -- `record_qualification_terminal`, then `save_health`
  unfoldable pub conclude : String → Bool → HealthRecord → Store → Store
  conclude epoch healthy health s = save_health health (
      record_qualification_terminal p
        (record {
          collector = c.name;
          execution_id = rd.run_uuid;
          epoch_id = epoch;
          material = material;
          provenance = runner.provenance.trigger;
          healthy = healthy;
          finished_at = rd.finished;
        })
        s)

  unfoldable pub good_outcome : Attempt → RunOutcome
  good_outcome a = record {
    collector = c.name;
    healthy = true;
    baseline = a.baseline;
    observation_count = length a.result.observations;
    discovery_count = length a.discoveries;
    warning = a.warning;
    error = none;
  }

  unfoldable pub bad_outcome : Exn → RunOutcome
  bad_outcome exn = record {
    collector = c.name;
    healthy = false;
    baseline = false;
    observation_count = attempted_count c;
    discovery_count = 0;
    warning = none;
    error = some (detail p exn);
  }

  -- the `HealthRecord` of an outcome
  unfoldable pub health_of : Option ℕ → RunOutcome → HealthRecord
  health_of previous_count o = record {
    collector = c.name;
    healthy = o.healthy;
    observed_count = o.observation_count;
    previous_count = previous_count;
    warning = o.warning;
    error = o.error;
    checked_at = rd.finished;
  }

  -- the arguments of `save_run` in the `try` and in the `except`
  unfoldable pub good_record : String → Attempt → RunRecord
  good_record epoch a =
      run_record epoch true a.result.observations a.discoveries a.warning none
        (with_soak run_metadata a.result.metadata) (runner.notification_intent_factory c)

  unfoldable pub bad_record : String → Exn → RunRecord
  bad_record epoch exn =
      run_record epoch false [] [] none (some (detail p exn))
        (with_soak run_metadata (field "attempted_observation_count" (int (attempted_count c)) end))
        none

  -- the rest of the `try`
  unfoldable pub settle_ok : String → Option ℕ → Attempt → Store → Result (RunOutcome × Store)
  settle_ok epoch previous_count a s = do
    saved ← save_run (good_record epoch a) s
    ok (good_outcome a, conclude epoch true (health_of previous_count (good_outcome a)) saved.1)

  -- the `except`
  unfoldable pub settle_failed : String → Option ℕ → Exn → Store → Result (RunOutcome × Store)
  settle_failed epoch previous_count exn s = do
    saved ← save_run (bad_record epoch exn) s
    ok (bad_outcome exn, conclude epoch false (health_of previous_count (bad_outcome exn)) saved.1)

  -- the count of the last healthy catalogue in the epoch, `None` before the first healthy run
  unfoldable pub count_before : String → Store → Option ℕ
  count_before epoch s =
      if has_healthy_run s c.name (some epoch)
      then some (length (last_healthy_catalogue s c.name (some epoch)))
      else none

  unfoldable pub run_in_epoch : String → Store → Result (RunOutcome × Store)
  run_in_epoch epoch s =
      let count = count_before epoch s in
      recover
        (do
          a ←
              attempt p runner.config c (last_healthy_catalogue s c.name (some epoch)) count
                rd.clock
          settle_ok epoch count a s)
        (λ exn. settle_failed epoch count exn s)

  -- `Runner._run_one`
  unfoldable pub run_one : Store → Result (RunOutcome × Store)
  run_one s = do
    prepared ←
        prepare_qualification p
          (record {
            collector = c.name;
            execution_id = rd.run_uuid;
            material = material;
            provenance = runner.provenance.trigger;
            started_at = rd.started;
            hex = rd.hex;
          })
          s
    run_in_epoch prepared.0.epoch_id prepared.1

-- one run after the other, each with the readings of its collector
unfoldable pub run_each :
    Platform
    → Runner
    → String
    → Fields
    → (Collector → Reading)
    → List Collector
    → Store
    → Result (List RunOutcome × Store)
run_each p runner scope meta readings [] s = ok ([], s)
run_each p runner scope meta readings (c ∷ cs) s = do
  first ← run_one p runner scope meta c (readings c) s
  rest ← run_each p runner scope meta readings cs first.1
  ok (first.0 ∷ rest.0, rest.1)

-- `Runner.run`
unfoldable pub run :
    Platform
    → Runner
    → RunScope
    → List String
    → Fields
    → (Collector → Reading)
    → Store
    → Result (List RunOutcome × Store)
run p runner scope allowlist meta readings s =
    run_each p runner (scope_value scope) meta readings (selected scope allowlist runner.registry) s

-- the loop of `run_selected` over the names
unfoldable pub enabled : Registry → List String → List String → Result (List Collector)
enabled r [] allowlist = ok []
enabled r (name ∷ names) allowlist = do
  c ← get name r
  raise_if (not (is_production c.tier) || not (contains allowlist name))
      (value_error ("collector is not production-enabled: " ++ name))
  cs ← enabled r names allowlist
  ok (c ∷ cs)

-- `Runner.run_selected`
unfoldable pub run_selected :
    Platform
    → Runner
    → List String
    → List String
    → Fields
    → (Collector → Reading)
    → Store
    → Result (List RunOutcome × Store)
run_selected p runner names allowlist meta readings s = do
  cs ← enabled runner.registry names allowlist
  run_each p runner (scope_value RunScope.production) meta readings cs s
