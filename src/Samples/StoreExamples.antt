-- ===== src/Samples/StoreExamples.antt =====
-- Examples for the schema, the qualification epochs and the evidence.
use smartwatch_clank.Base.{
  ◌≡◌, ◌≢◌, map, ap, ◌∙◌, String, Option, ◌↔◌, refl, true, false, none, some, [], has_key, lookup,
  put, ◌∷◌,
}
use smartwatch_clank.Base.Json.{end}
use smartwatch_clank.Base.Result.{Result, ok, err}
use smartwatch_clank.Qualification.{
  QualificationMaterial, QualificationEpoch, scheduled, manual, qualification_material_version,
  identity, new_epoch_id,
}
use smartwatch_clank.Store.{Store, EvidenceRow, EpochRow, fresh}
use smartwatch_clank.Store.Evidence.{Sighting, record_evidence, get_evidence, evidence_row}
use smartwatch_clank.Store.Evidence.FirstSeen.{record_evidence-TellsOf, TellsOf, HasIds}
use smartwatch_clank.Store.Epochs.{
  Preparation, Terminal, prepare_qualification, record_qualification_terminal, terminal_row,
  with_epoch, start_epoch, current_epoch, epoch_exists, event_exists, start_event_row,
  new_epoch_row, epoch_from_row, qualification_gate,
}
use smartwatch_clank.Store.Epochs.Resets.{prepare_qualification_again, gate_after_reset, HasEpochs}
use smartwatch_clank.Store.Epochs.Gate.{qualification_gate_iff, IsOpen}
use smartwatch_clank.Schema.{
  empty_database, inspect_existing, inspect_marker, inspect_structure, read_versions, missing_from,
  migrate, create_tables, add_columns, stamp, migrate_and_verify, inspect_store, Database, corrupt,
  compatible, inspect_schema, inspect_tables, admit_compatibility, admitted, unusable,
}
use smartwatch_clank.Schema.Tables.{expected_schema_version}
use smartwatch_clank.Schema.Verdicts.{IsCompatible, compatible-IsCompatible, admitted_compatible}
use smartwatch_clank.Schema.Untouched.{IsCompatible-admitted}
use smartwatch_clank.Samples.{host}

abbrev sighting : Sighting
sighting = record {
  oem = "samsung";
  source_class = "official_news";
  identity = "news:1";
  observed_at = 4;
  region = none;
  confidence = some "HIGH";
  editorial_level = none;
  source_url = none;
  payload = end;
}

-- the evidence of one item, seen first at 2
abbrev seen_once : Store
seen_once = record fresh { evidence = evidence_row 1 (record sighting { observed_at = 2 }) ∷ [] }

seen_once-HasIds : HasIds seen_once.evidence
seen_once-HasIds = (((λ e. refl), tt), tt)

record_evidence-TellsOf_example :
    ((r : EvidenceRow) × (get_evidence "official_news" "news:1"
          (record_evidence sighting seen_once).1
        ≡ some r)
      × TellsOf sighting (get_evidence "official_news" "news:1" seen_once) r)
    × (get_evidence "support" "news:1" (record_evidence sighting seen_once).1
        ≡ get_evidence "support" "news:1" seen_once)
record_evidence-TellsOf_example =
    record_evidence-TellsOf sighting seen_once "support" "news:1" seen_once-HasIds
      (λ h. absurd (cc h.0))

abbrev sample_material : QualificationMaterial
sample_material = record {
  app_version = some "1";
  config_fingerprint = some "f";
  git_revision = some "g";
  schema_version = 4;
  execution_scope = "production";
  contract_version = qualification_material_version;
}

abbrev preparation : Preparation
preparation = record {
  collector = "samsung";
  execution_id = "run-1";
  material = sample_material;
  provenance = scheduled;
  started_at = 1;
  hex = "ab";
}

abbrev later : Preparation
later = record preparation { execution_id = "run-2"; hex = "cd" }

abbrev no_epoch : QualificationEpoch
no_epoch = record {
  collector = "";
  epoch_id = "";
  material_identity = "";
  started_at = 0;
  execution_id = "";
  provenance = manual;
  reason = "";
  previous_epoch_id = none;
  previous_material_identity = none;
}

abbrev prepared_of : Result (QualificationEpoch × Store) → QualificationEpoch × Store
prepared_of (ok r) = r
prepared_of (err e) = (no_epoch, fresh)

abbrev prepared : QualificationEpoch × Store
prepared = prepared_of (prepare_qualification host preparation fresh)

prepared_ok : prepare_qualification host preparation fresh ≡ ok prepared
unfolding prepare_qualification start_epoch current_epoch epoch_exists event_exists start_event_row
    new_epoch_row epoch_from_row
prepared_ok = refl

prepare_qualification_again_example : prepare_qualification host later prepared.1 ≡ ok prepared
prepare_qualification_again_example =
    prepare_qualification_again host preparation later fresh prepared.1 prepared.0 prepared_ok refl
      refl

abbrev terminal : Terminal
terminal = record {
  collector = "samsung";
  execution_id = "run-1";
  epoch_id = "swq-samsung-ab";
  material = sample_material;
  provenance = scheduled;
  healthy = true;
  finished_at = 2;
}

-- an epoch of other material, which has qualified
abbrev concluded : Store
concluded =
    let s = record_qualification_terminal host terminal prepared.1 in
    record s { epochs = map (λ (r : EpochRow). record r { material_identity = "older" }) s.epochs }

concluded-HasEpochs : HasEpochs concluded
unfolding prepare_qualification start_epoch current_epoch epoch_exists event_exists start_event_row
    new_epoch_row epoch_from_row record_qualification_terminal terminal_row with_epoch identity
    new_epoch_id
concluded-HasEpochs = (refl, (refl, tt))

abbrev reset : QualificationEpoch × Store
reset = prepared_of (prepare_qualification host later concluded)

reset_ok : prepare_qualification host later concluded ≡ ok reset
unfolding prepare_qualification start_epoch current_epoch epoch_exists event_exists start_event_row
    new_epoch_row epoch_from_row record_qualification_terminal terminal_row with_epoch identity
    new_epoch_id
reset_ok = refl

abbrev found_identity : Option EpochRow → String
found_identity none = ""
found_identity (some r) = r.material_identity

other_material :
    (r : EpochRow)
    → current_epoch "samsung" concluded ≡ some r
    → r.material_identity ≢ identity host sample_material
unfolding prepare_qualification start_epoch current_epoch epoch_exists event_exists start_event_row
    new_epoch_row epoch_from_row record_qualification_terminal terminal_row with_epoch identity
    new_epoch_id
other_material r e k =
    let same : "older" ≡ identity host sample_material = ap found_identity e ∙ k in absurd (cc same)

gate_after_reset_example :
    ((qualification_gate reset.1 "samsung" none none).eligible ≡ false)
    × ((qualification_gate reset.1 "samsung" none none).reason ≡ "NO_TERMINAL_EVIDENCE")
    × ((qualification_gate reset.1 "samsung" none none).epoch_id ≡ some reset.0.epoch_id)
gate_after_reset_example =
    gate_after_reset host later concluded reset.1 reset.0 concluded-HasEpochs other_material
      reset_ok

qualification_gate_iff_example :
    ((qualification_gate prepared.1 "samsung" none none).eligible ≡ true)
    ↔ IsOpen prepared.1 "samsung" none none
qualification_gate_iff_example = qualification_gate_iff prepared.1 "samsung" none none

abbrev failed_terminal : Terminal
failed_terminal = record terminal { healthy = false }

abbrev torn : Database
torn = record { check = unusable; tables = []; markers = [] }

torn_state : (inspect_schema host torn expected_schema_version).state ≡ corrupt
unfolding inspect_schema
torn_state = refl

abbrev bootstrapped : Database
bootstrapped = migrate empty_database

bootstrapped_state : (inspect_schema host bootstrapped expected_schema_version).state ≡ compatible
unfolding inspect_schema inspect_tables inspect_existing inspect_marker inspect_structure
    read_versions missing_from migrate create_tables add_columns stamp has_key lookup put
bootstrapped_state = refl

compatible-IsCompatible_example : IsCompatible host bootstrapped
compatible-IsCompatible_example = compatible-IsCompatible host bootstrapped bootstrapped_state

-- an existing file: even a migration that would fail is of no concern
IsCompatible-admitted_example :
    admit_compatibility host (some torn) (some bootstrapped) ≡ admitted bootstrapped
IsCompatible-admitted_example =
    IsCompatible-admitted host (some torn) bootstrapped
      (compatible-IsCompatible host bootstrapped bootstrapped_state)

bootstrap : admit_compatibility host none none ≡ admitted bootstrapped
unfolding admit_compatibility migrate_and_verify inspect_store
bootstrap = rw bootstrapped_state

admitted_compatible_example :
    (inspect_schema host bootstrapped expected_schema_version).state ≡ compatible
admitted_compatible_example = admitted_compatible host none none bootstrapped bootstrap
