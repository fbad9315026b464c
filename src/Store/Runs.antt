-- ===== src/Store/Runs.antt =====
-- core/store.py: `save_run`, `last_healthy_catalogue`, `has_healthy_run`, `save_health`.
pub mod Catalogues
pub mod Saved
use smartwatch_clank.Base.{
  ℕ, suc, ◌+◌, String, Bool, true, false, not, ◌&&◌, ◌||◌, Option, none, some, List, [], ◌∷◌, ◌++◌,
  map, Dict, put, sort_by, keep_if, find_first, any_of, length, if◌then◌else◌, ◌==◌, nat_eq,
  string_eq, option_eq,
}
use smartwatch_clank.Base.Json.{Fields}
use smartwatch_clank.Base.Result.{Result, ok, err, integrity_error, ◌>>=◌}
use smartwatch_clank.Models.{Observation, Discovery, HealthRecord}
use smartwatch_clank.Diff.{Catalogue}
use smartwatch_clank.Qualification.{ExecutionProvenance, provenance_value}
use smartwatch_clank.Store.{Store, RunRow, ObservationRow, DiscoveryRow, Notification}

-- `max(rowid)`: rows get the next id, and none is ever deleted
abbrev pub last_run_id : List RunRow → ℕ
last_run_id [] = 0
last_run_id (r ∷ _) = r.id

-- {item.identity: item for item in items}, over the dict made so far
unfoldable pub index_onto : Catalogue → List Observation → Catalogue
index_onto d [] = d
index_onto d (o ∷ os) = index_onto (put o.identity o d) os

unfoldable pub by_identity : List Observation → Catalogue
unfolding index_onto
by_identity items = index_onto [] items

-- the clause `collector=? AND healthy=1 [AND qualification_epoch_id=?]`
unfoldable pub counts_as_healthy : String → Option String → RunRow → Bool
counts_as_healthy collector none r = r.collector == collector && r.healthy
counts_as_healthy collector (some epoch) r =
    r.collector == collector && (r.healthy && r.qualification_epoch_id == some epoch)

unfoldable pub last_healthy_run : String → Option String → List RunRow → Option RunRow
last_healthy_run collector epoch runs = find_first (counts_as_healthy collector epoch) runs

unfoldable pub run_items : ℕ → List ObservationRow → List Observation
run_items id rows = map (λ r. r.item) (keep_if (λ r. r.run_id == id) rows)

-- the observations of a run, by identity
unfoldable pub catalogue_of : List ObservationRow → Option RunRow → Catalogue
catalogue_of rows none = []
catalogue_of rows (some run) = by_identity (sort_by (λ o. o.identity) (run_items run.id rows))

-- `SQLiteStore.last_healthy_catalogue`
unfoldable pub last_healthy_catalogue : Store → String → Option String → Catalogue
last_healthy_catalogue s collector epoch =
    catalogue_of s.observations (last_healthy_run collector epoch s.runs)

-- `SQLiteStore.has_healthy_run`
unfoldable pub has_healthy_run : Store → String → Option String → Bool
has_healthy_run s collector epoch = any_of (counts_as_healthy collector epoch) s.runs

-- The arguments of `save_run`. `intent` is the callback on each new discovery and its row's id; it
-- reads and writes the outbox, and no other table.
pub record RunRecord : Type 0 where
  pub collector : String
  pub started_at : ℕ
  pub finished_at : ℕ
  pub healthy : Bool
  pub observations : List Observation
  pub discoveries : List Discovery
  pub warning : Option String
  pub error : Option String
  pub metadata : Fields
  pub run_uuid : Option String
  pub app_version : Option String
  pub schema_version_at_run : Option ℕ
  pub config_fingerprint : Option String
  pub git_revision : Option String
  pub execution_provenance : ExecutionProvenance
  pub qualification_epoch_id : Option String
  pub material_identity : Option String
  pub intent : Option (Discovery → ℕ → List Notification → List Notification)

unfoldable pub run_row : ℕ → RunRecord → RunRow
run_row id r = record {
  id = id;
  collector = r.collector;
  started_at = r.started_at;
  finished_at = r.finished_at;
  healthy = r.healthy;
  observation_count = length r.observations;
  warning = r.warning;
  error = r.error;
  metadata = r.metadata;
  discovery_count = length r.discoveries;
  run_uuid = r.run_uuid;
  app_version = r.app_version;
  schema_version_at_run = r.schema_version_at_run;
  config_fingerprint = r.config_fingerprint;
  git_revision = r.git_revision;
  execution_provenance = provenance_value r.execution_provenance;
  qualification_epoch_id = r.qualification_epoch_id;
  material_identity = r.material_identity;
}

-- the INSERTs into `observations`, under UNIQUE(run_id, identity)
unfoldable pub insert_observations :
    ℕ → String → List Observation → List ObservationRow → Result (List ObservationRow)
insert_observations id collector [] rows = ok rows
insert_observations id collector (o ∷ os) rows =
    let rest =
      insert_observations id collector os
        (rows ++ record { run_id = id; collector = collector; item = o } ∷ []) in
    if any_of (λ r. r.run_id == id && r.item.identity == o.identity) rows
    then err
        (integrity_error "UNIQUE constraint failed: observations.run_id, observations.identity")
    else rest

abbrev pub last_discovery_id : List DiscoveryRow → ℕ
last_discovery_id [] = 0
last_discovery_id (r ∷ []) = r.id
last_discovery_id (_ ∷ q ∷ rs) = last_discovery_id (q ∷ rs)

-- the INSERTs into `discoveries`, each followed by the intent
unfoldable pub insert_discoveries :
    ℕ
    → Option (Discovery → ℕ → List Notification → List Notification)
    → List Discovery
    → List DiscoveryRow
    → List Notification
    → List DiscoveryRow × List Notification
insert_discoveries id intent [] rows outbox = (rows, outbox)
insert_discoveries id intent (d ∷ ds) rows outbox =
    let key = last_discovery_id rows + 1 in
    insert_discoveries id intent ds (rows ++ record { id = key; run_id = id; item = d } ∷ [])
      (elim intent [ none ↦ outbox | some f ↦ f d key outbox ])

-- the branch `if healthy:` of `save_run`
unfoldable pub save_items : ℕ → RunRecord → Store → Result Store
save_items id r s = do
  rows ← insert_observations id r.collector r.observations s.observations
  let found = insert_discoveries id r.intent r.discoveries s.discoveries s.notifications
  ok (record s { observations = rows; discoveries = found.0; notifications = found.1 })

-- `SQLiteStore.save_run`: the new row's id, and the store
unfoldable pub save_run : RunRecord → Store → Result (ℕ × Store)
save_run r s =
    let id = suc (last_run_id s.runs) in
    let s' = record s { runs = run_row id r ∷ s.runs } in
    if r.healthy then (do t ← save_items id r s'; ok (id, t)) else ok (id, s')

-- `SQLiteStore.save_health`: an upsert on the collector
unfoldable pub save_health : HealthRecord → Store → Store
save_health h s = record s { health = put h.collector h s.health }
