-- ===== src/Store.antt =====
-- src/smartwatch_clank/core/store.py: the tables, as lists of rows. `runs`, `qualification_epochs`
-- and `qualification_events` have the newest row first, the other tables the oldest. A dict or an
-- observation that the program writes as JSON, and an instant that it writes as text, stands in the
-- row as the value that it reads back. A transaction that raises leaves the store as it was.
pub mod Runs
pub mod Epochs
pub mod Outbox
pub mod Evidence
pub mod Settings
use smartwatch_clank.Base.{ℕ, String, Bool, Option, List, [], Dict}
use smartwatch_clank.Base.Json.{Fields}
use smartwatch_clank.Models.{Observation, Discovery, HealthRecord}

pub record RunRow : Type 0 where
  pub id : ℕ
  pub collector : String
  pub started_at : ℕ
  pub finished_at : ℕ
  pub healthy : Bool
  pub observation_count : ℕ
  pub warning : Option String
  pub error : Option String
  pub metadata : Fields
  pub discovery_count : ℕ
  pub run_uuid : Option String
  pub app_version : Option String
  pub schema_version_at_run : Option ℕ
  pub config_fingerprint : Option String
  pub git_revision : Option String
  pub execution_provenance : String
  pub qualification_epoch_id : Option String
  pub material_identity : Option String

pub record ObservationRow : Type 0 where
  pub run_id : ℕ
  pub collector : String
  pub item : Observation

pub record DiscoveryRow : Type 0 where
  pub id : ℕ
  pub run_id : ℕ
  pub item : Discovery

pub record EpochRow : Type 0 where
  pub id : ℕ
  pub collector : String
  pub epoch_id : String
  pub material_identity : String
  pub material_components : Fields
  pub started_at : ℕ
  pub created_by_execution_id : String
  pub provenance : String
  pub reason : String
  pub previous_epoch_id : Option String
  pub previous_material_identity : Option String

pub record EventRow : Type 0 where
  pub id : ℕ
  pub collector : String
  pub event_type : String
  pub execution_id : String
  pub epoch_id : String
  pub material_identity : String
  -- `none`: a text that is not a JSON object
  pub material_components : Option Fields
  pub provenance : String
  pub healthy : Option Bool
  pub reason : String
  pub previous_epoch_id : Option String
  pub previous_material_identity : Option String
  pub occurred_at : ℕ

-- the CHECK on `notifications.status`
pub data Status : Type 0 where
  pending sent failed held : Status

pub record Notification : Type 0 where
  pub id : ℕ
  pub provider : String
  pub dedup_key : String
  pub discovery_id : Option ℕ
  pub collector : Option String
  pub identity : Option String
  pub discovered_at : Option String
  pub payload : Fields
  pub status : Status
  pub attempts : ℕ
  pub last_error : Option String
  pub http_status : Option ℕ
  pub not_before : Option String
  pub last_attempt_at : Option ℕ
  pub sent_at : Option ℕ

pub record EvidenceRow : Type 0 where
  pub id : ℕ
  pub oem : String
  pub source_class : String
  pub identity : String
  pub region : Option String
  pub confidence : Option String
  pub editorial_level : Option String
  pub source_url : Option String
  pub first_seen : ℕ
  pub last_seen : ℕ
  pub payload : Fields

pub record TimelineRow : Type 0 where
  pub evidence_id : ℕ
  pub observed_at : ℕ
  pub event : String
  pub payload : Fields

pub record HostMigration : Type 0 where
  pub from_host_id : String
  pub to_host_id : String
  pub recorded_at : ℕ
  pub observation_gap_seconds : Option ℕ

pub record Store : Type 0 where
  pub runs : List RunRow
  pub observations : List ObservationRow
  pub discoveries : List DiscoveryRow
  pub health : Dict HealthRecord
  pub epochs : List EpochRow
  pub events : List EventRow
  pub notifications : List Notification
  pub policy : Dict String
  pub soak_state : Dict String
  pub migrations : List HostMigration
  pub evidence : List EvidenceRow
  pub timeline : List TimelineRow

-- a store that `_migrate` has just created
abbrev pub fresh : Store
fresh = record {
  runs = [];
  observations = [];
  discoveries = [];
  health = [];
  epochs = [];
  events = [];
  notifications = [];
  policy = [];
  soak_state = [];
  migrations = [];
  evidence = [];
  timeline = [];
}
