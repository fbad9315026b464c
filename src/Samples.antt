-- ===== src/Samples.antt =====
-- Concrete values for the tests and the examples in the modules below.
pub mod RunExamples
pub mod WatchExamples
pub mod LockExamples
pub mod LocalExamples
pub mod SamsungExamples
pub mod QcExamples
pub mod ContinuityExamples
pub mod DeliveryExamples
pub mod StoreExamples
pub mod RegistryExamples
use smartwatch_clank.Base.{ℕ, String, Bool, true, false, Option, none, some, List, [], ◌∷◌}
use smartwatch_clank.Base.Json.{end}
use smartwatch_clank.Base.Result.{Result, ok}
use smartwatch_clank.Platform.{Platform, aware, whole}
use smartwatch_clank.Models.{Observation, CollectorTier, CollectorResult}
use smartwatch_clank.Registry.{Collector}
use smartwatch_clank.Health.{default_config}
use smartwatch_clank.Qualification.{scheduled}
use smartwatch_clank.Runner.{Runner, Reading}
use smartwatch_clank.Store.{Notification, Store, fresh, pending}
use smartwatch_clank.Delivery.Discord.{Session, Outcome}

abbrev pub host : Platform
host = record {
  digest = λ f. "digest";
  describe_counts = λ l a b. l;
  isoformat = λ t. "2026-01-01";
  fromisoformat = λ s. some (aware 7);
  decimal = λ n. "1";
  show = λ j. "value";
  read_int = λ s. some (whole 4);
  traceback = λ e. "trace";
}

abbrev pub watch : Observation
watch = record {
  collector = "samsung";
  identity = "samsung:watch";
  source_url = "https://example.com/watch";
  observed_at = 3;
  source_kind = some "product_catalogue";
  source_class = none;
  oem = some "samsung";
  region = some "uk";
  product_family = none;
  family_identity = none;
  product_name = some "Watch";
  regional_model_number = none;
  size = none;
  colour = none;
  connectivity = none;
  classification_state = none;
  classification_evidence = [];
  title = none;
  model_number = none;
  sku = none;
  price = some "299";
  currency = some "GBP";
  availability = none;
  specifications = end;
  firmware_version = none;
  software_version = none;
  support_metadata = end;
  release_notes = none;
  page_hash = none;
  payload = end;
}

abbrev pub found : CollectorResult
found = record { observations = watch ∷ []; metadata = end }

abbrev pub samsung : Collector
samsung = record {
  name = "samsung";
  tier = CollectorTier.production;
  unexpected_zero_is_failure = true;
  result = ok found;
}

abbrev pub runner : Runner
runner = record {
  registry = ("samsung", samsung) ∷ [];
  config = default_config;
  provenance = record {
    app_version = some "1";
    config_fingerprint = some "f";
    git_revision = some "g";
    trigger = scheduled;
  };
  notification_intent_factory = λ c. none;
}

abbrev pub reading : Reading
reading = record { started = 1; finished = 2; run_uuid = "run-1"; hex = "ab"; clock = λ k. 5 }

abbrev pub queued : Notification
queued = record {
  id = 1;
  provider = "discord";
  dedup_key = "discovery:1";
  discovery_id = some 1;
  collector = some "samsung";
  identity = some "samsung:watch";
  discovered_at = some "2026-01-01";
  payload = end;
  status = pending;
  attempts = 4;
  last_error = none;
  http_status = none;
  not_before = none;
  last_attempt_at = none;
  sent_at = none;
}

abbrev pub outbox_store : Store
outbox_store = record fresh {
  notifications = queued ∷ [];
  policy = ("discord.activation_cutoff", "2025-12-31") ∷ [];
}

abbrev pub accepted : Outcome
accepted = record { ok = true; error = none; http_status = some 204; retry_after = none }

abbrev pub session : Session
session = record {
  webhook = true;
  grant = true;
  sender = λ id payload. ok accepted;
  checked_at = λ id. 9;
  limited_at = λ id. 9;
  marked_at = λ id. 9;
}
