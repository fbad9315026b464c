-- ===== src/Schema/Tables.antt =====
-- core/schema_state.py and `SQLiteStore._migrate`: the tables and the columns of the schema.
use smartwatch_clank.Base.{ℕ, String, List, [], ◌∷◌, Dict}

abbrev pub expected_schema_version : ℕ
expected_schema_version = 4

abbrev pub schema_version_table : String
schema_version_table = "schema_version"

-- `EXPECTED_TABLES`
abbrev pub expected_tables : List String
expected_tables =
    "runs" ∷ "observations" ∷ "discoveries" ∷ "collector_health" ∷ "feedback"
    ∷ "samsung_reconciliation_runs" ∷ "samsung_reconciliation_records" ∷ "source_onboarding"
    ∷ "prelaunch_candidates" ∷ "samsung_candidate_events" ∷ "soak_state" ∷ "soak_host_migrations"
    ∷ "schema_version" ∷ "evidence_records" ∷ "evidence_timeline" ∷ "qualification_epochs"
    ∷ "qualification_events" ∷ "notifications" ∷ "delivery_policy" ∷ []

-- `REQUIRED_COLUMNS["runs"]`
abbrev pub required_columns : List String
required_columns =
    "id" ∷ "collector" ∷ "started_at" ∷ "finished_at" ∷ "healthy" ∷ "observation_count" ∷ "warning"
    ∷ "error" ∷ "metadata_json" ∷ "discovery_count" ∷ "run_uuid" ∷ "app_version"
    ∷ "schema_version_at_run" ∷ "config_fingerprint" ∷ "git_revision" ∷ "execution_provenance"
    ∷ "qualification_epoch_id" ∷ "material_identity" ∷ []

-- `LEGACY_GENERATIONS`
abbrev pub first_generation : List String
first_generation =
    "id" ∷ "collector" ∷ "started_at" ∷ "finished_at" ∷ "healthy" ∷ "observation_count" ∷ "warning"
    ∷ "error" ∷ []

abbrev pub second_generation : List String
second_generation =
    "id" ∷ "collector" ∷ "started_at" ∷ "finished_at" ∷ "healthy" ∷ "observation_count" ∷ "warning"
    ∷ "error" ∷ "metadata_json" ∷ "discovery_count" ∷ []

-- the tables of the script in `_migrate`, with the columns that it creates
abbrev pub schema_tables : Dict (List String)
schema_tables =
    (
      "runs",
      "id" ∷ "collector" ∷ "started_at" ∷ "finished_at" ∷ "healthy" ∷ "observation_count"
          ∷ "warning" ∷ "error" ∷ "metadata_json" ∷ "discovery_count" ∷ [],
    )
    ∷ (
      "observations",
      "id" ∷ "run_id" ∷ "collector" ∷ "identity" ∷ "observed_at" ∷ "source_url" ∷ "data_json" ∷ [],
    )
    ∷ (
      "discoveries",
      "id" ∷ "run_id" ∷ "collector" ∷ "identity" ∷ "change_type" ∷ "confidence" ∷ "editorial_level"
          ∷ "source_url" ∷ "discovered_at" ∷ "previous_json" ∷ "current_json" ∷ "evidence_json"
          ∷ [],
    )
    ∷ (
      "collector_health",
      "collector" ∷ "healthy" ∷ "observed_count" ∷ "previous_count" ∷ "warning" ∷ "error"
          ∷ "checked_at" ∷ [],
    )
    ∷ ("feedback", "id" ∷ "discovery_id" ∷ "outcome" ∷ "reason_code" ∷ "created_at" ∷ [])
    ∷ (
      "samsung_reconciliation_runs",
      "id" ∷ "reconciled_at" ∷ "baseline" ∷ "source_regions_json" ∷ [],
    )
    ∷ (
      "samsung_reconciliation_records",
      "id" ∷ "run_id" ∷ "relationship" ∷ "region" ∷ "base_model" ∷ "regional_sku" ∷ "data_json"
          ∷ [],
    )
    ∷ ("source_onboarding", "source_kind" ∷ "region" ∷ "first_baselined_at" ∷ [])
    ∷ (
      "prelaunch_candidates",
      "candidate_key" ∷ "base_model" ∷ "regional_sku" ∷ "region" ∷ "support_url" ∷ "first_seen"
          ∷ "last_seen" ∷ "classification_evidence_json" ∷ "state" ∷ "matched_catalogue_json"
          ∷ "catalogue_first_seen" ∷ "onboarding_baseline" ∷ [],
    )
    ∷ (
      "samsung_candidate_events",
      "id" ∷ "candidate_key" ∷ "event_type" ∷ "occurred_at" ∷ "evidence_json" ∷ [],
    )
    ∷ ("soak_state", "key" ∷ "value" ∷ [])
    ∷ (
      "soak_host_migrations",
      "id" ∷ "from_host_id" ∷ "to_host_id" ∷ "recorded_at" ∷ "observation_gap_seconds" ∷ [],
    )
    ∷ ("schema_version", "id" ∷ "version" ∷ "updated_at" ∷ [])
    ∷ (
      "evidence_records",
      "id" ∷ "oem" ∷ "source_class" ∷ "identity" ∷ "region" ∷ "confidence" ∷ "editorial_level"
          ∷ "source_url" ∷ "first_seen" ∷ "last_seen" ∷ "payload_json" ∷ [],
    )
    ∷ ("evidence_timeline", "id" ∷ "evidence_id" ∷ "observed_at" ∷ "event" ∷ "payload_json" ∷ [])
    ∷ (
      "qualification_epochs",
      "id" ∷ "collector" ∷ "epoch_id" ∷ "material_identity" ∷ "material_components_json"
          ∷ "started_at" ∷ "created_by_execution_id" ∷ "provenance" ∷ "reason" ∷ "previous_epoch_id"
          ∷ "previous_material_identity" ∷ [],
    )
    ∷ (
      "qualification_events",
      "id" ∷ "collector" ∷ "event_type" ∷ "execution_id" ∷ "epoch_id" ∷ "material_identity"
          ∷ "material_components_json" ∷ "provenance" ∷ "healthy" ∷ "reason" ∷ "previous_epoch_id"
          ∷ "previous_material_identity" ∷ "occurred_at" ∷ [],
    )
    ∷ (
      "notifications",
      "id" ∷ "provider" ∷ "dedup_key" ∷ "discovery_id" ∷ "collector" ∷ "identity" ∷ "discovered_at"
          ∷ "payload_json" ∷ "status" ∷ "attempts" ∷ "last_error" ∷ "http_status" ∷ "not_before"
          ∷ "last_attempt_at" ∷ "sent_at" ∷ "created_at" ∷ [],
    )
    ∷ ("delivery_policy", "key" ∷ "value" ∷ "updated_at" ∷ [])
    ∷ []

-- the columns that `_migrate` adds to `runs` where they are missing
abbrev pub added_columns : List String
added_columns =
    "metadata_json" ∷ "discovery_count" ∷ "run_uuid" ∷ "app_version" ∷ "schema_version_at_run"
    ∷ "config_fingerprint" ∷ "git_revision" ∷ "execution_provenance" ∷ "qualification_epoch_id"
    ∷ "material_identity" ∷ []
