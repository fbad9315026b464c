-- ===== src/Store/Epochs.antt =====
-- core/store.py: the qualification epochs, their events and the gate.
pub mod Resets
pub mod Gate
use smartwatch_clank.Base.{
  ℕ, zero, suc, String, Bool, true, false, not, ◌&&◌, ◌||◌, Option, none, some, List, [], ◌∷◌,
  find_first, any_of, if◌then◌else◌, ◌==◌, string_eq, option_eq, bool_eq,
}
use smartwatch_clank.Base.Json.{
  Json, Fields, Items, member, null, bool, int, num, str, arr, obj, nil, end,
}
use smartwatch_clank.Base.Result.{Result, ok, err, integrity_error}
use smartwatch_clank.Base.Text.{codes, lower, same_text}
use smartwatch_clank.Platform.{Platform}
use smartwatch_clank.Qualification.{
  ExecutionProvenance, provenance_value, normalize_provenance, unknown, QualificationMaterial,
  QualificationEpoch, QualificationGate, components, identity, new_epoch_id,
}
use smartwatch_clank.Store.{Store, EpochRow, EventRow}

abbrev pub last_epoch_id : List EpochRow → ℕ
last_epoch_id [] = 0
last_epoch_id (r ∷ _) = r.id

abbrev pub last_event_id : List EventRow → ℕ
last_event_id [] = 0
last_event_id (r ∷ _) = r.id

-- SELECT * FROM qualification_epochs WHERE collector=? ORDER BY id DESC LIMIT 1
unfoldable pub current_epoch : String → Store → Option EpochRow
current_epoch collector s = find_first (λ r. r.collector == collector) s.epochs

-- `_qualification_epoch_from_row`
unfoldable pub epoch_from_row : EpochRow → QualificationEpoch
epoch_from_row r = record {
  collector = r.collector;
  epoch_id = r.epoch_id;
  material_identity = r.material_identity;
  started_at = r.started_at;
  execution_id = r.created_by_execution_id;
  provenance = normalize_provenance (some r.provenance);
  reason = r.reason;
  previous_epoch_id = r.previous_epoch_id;
  previous_material_identity = r.previous_material_identity;
}

-- UNIQUE(collector, epoch_id)
unfoldable pub epoch_exists : String → String → List EpochRow → Bool
epoch_exists collector epoch_id rows =
    any_of (λ r. r.collector == collector && r.epoch_id == epoch_id) rows

-- UNIQUE(collector, event_type, execution_id)
unfoldable pub event_exists : String → String → String → List EventRow → Bool
event_exists collector event_type execution_id rows =
    any_of
      (λ r.
        r.collector == collector && (r.event_type == event_type && r.execution_id == execution_id))
      rows

-- The arguments of `prepare_qualification`; `hex` is the UUID that a new epoch's name gets.
pub record Preparation : Type 0 where
  pub collector : String
  pub execution_id : String
  pub material : QualificationMaterial
  pub provenance : ExecutionProvenance
  pub started_at : ℕ
  pub hex : String

-- the two rows of a new epoch
unfoldable pub new_epoch_row : Platform → Preparation → Option EpochRow → List EpochRow → EpochRow
new_epoch_row p a current rows = record {
  id = suc (last_epoch_id rows);
  collector = a.collector;
  epoch_id = new_epoch_id a.collector a.hex;
  material_identity = identity p a.material;
  material_components = components a.material;
  started_at = a.started_at;
  created_by_execution_id = a.execution_id;
  provenance = provenance_value a.provenance;
  reason = elim current [
    | none ↦ "INITIAL_MATERIAL_IDENTITY"
    | some _ ↦ "MATERIAL_IDENTITY_CHANGED"
  ];
  previous_epoch_id = elim current [ none ↦ none | some r ↦ some r.epoch_id ];
  previous_material_identity = elim current [ none ↦ none | some r ↦ some r.material_identity ];
}

unfoldable pub start_event_row : EpochRow → Option EpochRow → List EventRow → EventRow
start_event_row e current rows = record {
  id = suc (last_event_id rows);
  collector = e.collector;
  event_type = elim current [ none ↦ "EPOCH_STARTED" | some _ ↦ "RESET" ];
  execution_id = e.created_by_execution_id;
  epoch_id = e.epoch_id;
  material_identity = e.material_identity;
  material_components = some e.material_components;
  provenance = e.provenance;
  healthy = none;
  reason = e.reason;
  previous_epoch_id = e.previous_epoch_id;
  previous_material_identity = e.previous_material_identity;
  occurred_at = e.started_at;
}

-- the store with both rows
unfoldable pub with_epoch : Platform → Preparation → Option EpochRow → Store → Store
with_epoch p a current s =
    let e = new_epoch_row p a current s.epochs in
    record s { epochs = e ∷ s.epochs; events = start_event_row e current s.events ∷ s.events }

-- the branch that appends an epoch
unfoldable pub start_epoch :
    Platform → Preparation → Option EpochRow → Store → Result (QualificationEpoch × Store)
start_epoch p a current s =
    let e = new_epoch_row p a current s.epochs in
    let v = start_event_row e current s.events in
    if epoch_exists e.collector e.epoch_id s.epochs
      || event_exists v.collector v.event_type v.execution_id s.events
    then err (integrity_error "UNIQUE constraint failed")
    else ok (epoch_from_row e, with_epoch p a current s)

-- `SQLiteStore.prepare_qualification`
unfoldable pub prepare_qualification :
    Platform → Preparation → Store → Result (QualificationEpoch × Store)
prepare_qualification p a s = elim (current_epoch a.collector s) [
  | none ↦ start_epoch p a none s
  | some current ↦
      if current.material_identity == identity p a.material
      then ok (epoch_from_row current, s)
      else start_epoch p a (some current) s
]

-- The arguments of `record_qualification_terminal`.
pub record Terminal : Type 0 where
  pub collector : String
  pub execution_id : String
  pub epoch_id : String
  pub material : QualificationMaterial
  pub provenance : ExecutionProvenance
  pub healthy : Bool
  pub finished_at : ℕ

unfoldable pub terminal_row : Platform → Terminal → List EventRow → EventRow
terminal_row p t rows = record {
  id = suc (last_event_id rows);
  collector = t.collector;
  event_type = "TERMINAL";
  execution_id = t.execution_id;
  epoch_id = t.epoch_id;
  material_identity = identity p t.material;
  material_components = some (components t.material);
  provenance = provenance_value t.provenance;
  healthy = some t.healthy;
  reason = if t.healthy then "HEALTHY" else "FAILED";
  previous_epoch_id = none;
  previous_material_identity = none;
  occurred_at = t.finished_at;
}

-- `record_qualification_terminal`: INSERT OR IGNORE
unfoldable pub record_qualification_terminal : Platform → Terminal → Store → Store
record_qualification_terminal p t s =
    if event_exists t.collector "TERMINAL" t.execution_id s.events
    then s
    else record s { events = terminal_row p t s.events ∷ s.events }

-- Python's truth value of a member, `None` where it is missing. A number that is no natural number
-- counts as true: the program writes none, 0.0 included.
unfoldable pub truthy : Option Json → Bool
truthy none = false
truthy (some null) = false
truthy (some (bool b)) = b
truthy (some (int zero)) = false
truthy (some (str text)) = not (text == "")
truthy (some (arr nil)) = false
truthy (some (obj end)) = false
truthy (some _) = true

-- `str(value).lower() != "unknown"`; the text of a value that is no text is never that word
unfoldable pub is_known_revision : Option Json → Bool
unfolding codes lower same_text
is_known_revision (some (str text)) = not (same_text (lower (codes text)) (codes "unknown"))
is_known_revision _ = true

unfoldable pub trusted_components : Fields → Bool
unfolding truthy is_known_revision member
trusted_components fs =
    truthy (member "app_version" fs)
    && (truthy (member "config_fingerprint" fs)
        && (truthy (member "git_revision" fs) && is_known_revision (member "git_revision" fs)))

-- the newest TERMINAL event of an epoch
unfoldable pub last_terminal : String → String → Store → Option EventRow
last_terminal collector epoch_id s =
    find_first
      (λ r. r.collector == collector && (r.event_type == "TERMINAL" && r.epoch_id == epoch_id))
      s.events

abbrev pub is_unknown : ExecutionProvenance → Bool
is_unknown unknown = true
is_unknown _ = false

-- A filter that the caller may leave out.
abbrev pub differs : Option String → String → Bool
differs none b = false
differs (some a) b = not (a == b)

-- the tests on the terminal event: the reason, and whether the gate is open. Components that are JSON
-- but no object, which the program never writes, have no case.
unfoldable pub judge_terminal : EpochRow → EventRow → Bool × String
judge_terminal current terminal =
    if is_unknown (normalize_provenance (some terminal.provenance))
    then (false, "UNKNOWN_PROVENANCE")
    else elim terminal.material_components [
      | none ↦ (false, "MALFORMED_MATERIAL_IDENTITY")
      | some fs ↦
          if not (trusted_components fs)
          then (false, "UNTRUSTWORTHY_MATERIAL_IDENTITY")
          else if not (terminal.healthy == some true)
          then (false, "LATEST_EXECUTION_UNHEALTHY")
          else if not (terminal.material_identity == current.material_identity)
          then (false, "TERMINAL_MATERIAL_IDENTITY_MISMATCH")
          else (true, "QUALIFIED")
    ]

unfoldable pub closed : String → EpochRow → String → QualificationGate
closed collector current reason = record {
  collector = collector;
  epoch_id = some current.epoch_id;
  material_identity = some current.material_identity;
  eligible = false;
  reason = reason;
  execution_id = none;
}

-- the gate, where there is an active epoch
unfoldable pub gate_of :
    String → EpochRow → Option String → Option String → Option EventRow → QualificationGate
unfolding closed
gate_of collector current epoch_id material_identity terminal =
    if differs epoch_id current.epoch_id
    then closed collector current "STALE_EPOCH"
    else if differs material_identity current.material_identity
    then closed collector current "MATERIAL_IDENTITY_MISMATCH"
    else elim terminal [
      | none ↦ closed collector current "NO_TERMINAL_EVIDENCE"
      | some t ↦ record {
        collector = collector;
        epoch_id = some current.epoch_id;
        material_identity = some current.material_identity;
        eligible = (judge_terminal current t).0;
        reason = (judge_terminal current t).1;
        execution_id = some t.execution_id;
      }
    ]

-- `SQLiteStore.qualification_gate`
unfoldable pub qualification_gate :
    Store → String → Option String → Option String → QualificationGate
qualification_gate s collector epoch_id material_identity = elim (current_epoch collector s) [
  | none ↦ record {
    collector = collector;
    epoch_id = none;
    material_identity = material_identity;
    eligible = false;
    reason = "NO_ACTIVE_EPOCH";
    execution_id = none;
  }
  | some current ↦
      gate_of collector current epoch_id material_identity
        (last_terminal collector current.epoch_id s)
]
