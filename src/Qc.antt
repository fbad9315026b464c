-- ===== src/Qc.antt =====
-- src/smartwatch_clank/qc_archive.py: the archive of QC decisions, a database file of its own.
pub mod Decisions
pub mod Files
use mathlib.Core.List.{reverse}
use smartwatch_clank.Base.{
  ℕ, zero, suc, ◌+◌, String, Bool, true, false, not, ◌&&◌, ◌||◌, Option, none, some, List, [], ◌∷◌,
  ◌++◌, map, Dict, put, lookup, sort_by, find_first, any_of, all_of, contains, length,
  if◌then◌else◌, ◌==◌, nat_eq, string_eq, option_eq,
}
use smartwatch_clank.Base.Result.{Result, ok, err}

-- `QC_DECISIONS`
abbrev pub qc_decisions : List String
qc_decisions = "USEFUL" ∷ "NOT_USEFUL" ∷ "FALSE_POSITIVE" ∷ "OUT_OF_STOCK" ∷ []

-- a row of `qc_decisions`
pub record QcRow : Type 0 where
  pub id : ℕ
  pub discovery_id : ℕ
  pub run_id : Option ℕ
  pub collector : String
  pub identity : String
  pub change_type : Option String
  pub confidence : Option String
  pub editorial_level : Option String
  pub source_url : Option String
  pub discovered_at : Option String
  pub previous_json : Option String
  pub current_json : Option String
  pub evidence_json : Option String
  pub decision : String
  pub note : Option String
  pub decided_at : String
  pub decided_by : Option String

-- The discovery that is decided on, a dict with the keys "id", "collector" and "identity"; what it
-- lacks of the others is `None`.
pub record Subject : Type 0 where
  pub id : ℕ
  pub run_id : Option ℕ
  pub collector : Option String
  pub identity : Option String
  pub change_type : Option String
  pub confidence : Option String
  pub editorial_level : Option String
  pub source_url : Option String
  pub discovered_at : Option String
  pub previous_json : Option String
  pub current_json : Option String
  pub evidence_json : Option String

-- what `decide` and `migrate` raise
pub data QcState : Type 0 where
  corrupt fresh unknown_or_wrong_shape compatible : QcState
  post_bootstrap : QcState → QcState

pub data QcError : Type 0 where
  unknown_decision : String → QcError
  already_decided : ℕ → QcError
  schema_state_error : QcState → QcError

pub data QcResult {ℓ} (A : Type ℓ) : Type ℓ where
  done : A → QcResult A
  failed : QcError → QcResult A

-- UNIQUE(discovery_id)
abbrev pub is_decided : ℕ → List QcRow → Bool
is_decided discovery_id rows = any_of (λ r. r.discovery_id == discovery_id) rows

-- `max(rowid)`
abbrev pub last_qc_id : List QcRow → ℕ
last_qc_id [] = 0
last_qc_id (r ∷ []) = r.id
last_qc_id (_ ∷ q ∷ rs) = last_qc_id (q ∷ rs)

-- the row of the INSERT; `none` where a NOT NULL column would be NULL
unfoldable pub qc_row :
    (now : String) → Subject → String → Option String → String → List QcRow → Option QcRow
qc_row now d decision note decided_by rows = elim (d.collector) [
  | none ↦ none
  | some collector ↦ elim (d.identity) [
    | none ↦ none
    | some identity ↦ some (record {
      id = suc (last_qc_id rows);
      discovery_id = d.id;
      run_id = d.run_id;
      collector = collector;
      identity = identity;
      change_type = d.change_type;
      confidence = d.confidence;
      editorial_level = d.editorial_level;
      source_url = d.source_url;
      discovered_at = d.discovered_at;
      previous_json = d.previous_json;
      current_json = d.current_json;
      evidence_json = d.evidence_json;
      decision = decision;
      note = note;
      decided_at = now;
      decided_by = some decided_by;
    })
  ]
]

-- the INSERT; every IntegrityError becomes `AlreadyDecided`, that of a NOT NULL column too
unfoldable pub insert_decision : ℕ → Option QcRow → List QcRow → QcResult (List QcRow)
insert_decision id none rows = failed (already_decided id)
insert_decision id (some row) rows =
    if is_decided id rows then failed (already_decided id) else done (rows ++ row ∷ [])

-- `QCArchive.decide`
unfoldable pub decide_qc :
    (now : String)
    → Subject
    → String
    → (note : Option String) (decided_by : String) → List QcRow
    → QcResult (List QcRow)
decide_qc now d decision note decided_by rows =
    if not (contains qc_decisions decision)
    then failed (unknown_decision decision)
    else insert_decision d.id (qc_row now d decision note decided_by rows) rows

-- `QCArchive.decided_discovery_ids`
unfoldable pub decided_discovery_ids : List QcRow → List ℕ
decided_discovery_ids rows = map (λ r. r.discovery_id) rows

-- `QCArchive.decision_for`
unfoldable pub decision_for : ℕ → List QcRow → Option QcRow
decision_for id rows = find_first (λ r. r.discovery_id == id) rows

abbrev pub take_first {ℓ} : {A : Type ℓ} → ℕ → List A → List A
take_first zero xs = []
take_first (suc n) [] = []
take_first (suc n) (x ∷ xs) = x ∷ take_first n xs

-- `QCArchive.recent`: ORDER BY decided_at DESC LIMIT ?
unfoldable pub recent : ℕ → List QcRow → List QcRow
recent limit rows = take_first limit (reverse (sort_by (λ r. r.decided_at) rows))

-- SELECT decision, COUNT(*) ... GROUP BY decision
unfoldable pub by_decision : List QcRow → Dict ℕ
by_decision [] = []
by_decision (r ∷ rows) =
    let counts = by_decision rows in
    put r.decision (suc (elim (lookup r.decision counts) [ none ↦ 0 | some n ↦ n ])) counts

-- `QCArchive.status`
unfoldable pub archive_status : List QcRow → Dict ℕ
unfolding by_decision
archive_status rows = ("total", length rows) ∷ by_decision rows

-- The database file: whether SQLite finds it sound, its tables with their columns, and the rows of
-- `qc_decisions`.
pub record QcFile : Type 0 where
  pub sound : Bool
  pub tables : Dict (List String)
  pub rows : List QcRow

abbrev pub empty_file : QcFile
empty_file = record { sound = true; tables = []; rows = [] }

-- `_EXPECTED_COLUMNS` of the one table
abbrev pub expected_columns : List String
expected_columns =
    "id" ∷ "discovery_id" ∷ "run_id" ∷ "collector" ∷ "identity" ∷ "change_type" ∷ "confidence"
    ∷ "editorial_level" ∷ "source_url" ∷ "discovered_at" ∷ "previous_json" ∷ "current_json"
    ∷ "evidence_json" ∷ "decision" ∷ "note" ∷ "decided_at" ∷ "decided_by" ∷ []

-- equality of sets
unfoldable pub set_equal : List String → List String → Bool
set_equal xs ys = all_of (λ x. contains ys x) xs && all_of (λ y. contains xs y) ys

-- the nested function `_inspect`
unfoldable pub inspect : QcFile → QcState
inspect f = if not f.sound then corrupt else elim (f.tables) [
  | [] ↦ fresh
  | (name, columns) ∷ others ↦
      if not (set_equal (map (λ t. t.0) ((name, columns) ∷ others)) ("qc_decisions" ∷ []))
      then unknown_or_wrong_shape
      else if not (set_equal columns expected_columns)
      then unknown_or_wrong_shape
      else compatible
]

-- `con.executescript(_SCHEMA)`: CREATE TABLE IF NOT EXISTS
unfoldable pub create_schema : QcFile → QcFile
create_schema f =
    if any_of (λ t. t.0 == "qc_decisions") f.tables
    then f
    else record f { tables = f.tables ++ ("qc_decisions", expected_columns) ∷ [] }

abbrev pub is_compatible : QcState → Bool
is_compatible compatible = true
is_compatible _ = false

-- the second inspection
unfoldable pub after_bootstrap : QcFile → QcResult QcFile
after_bootstrap f =
    if is_compatible (inspect f)
    then done f
    else failed (schema_state_error (post_bootstrap (inspect f)))

-- what follows the first inspection
unfoldable pub migrate_from : QcState → QcFile → QcResult QcFile
migrate_from compatible f = done f
migrate_from fresh f = after_bootstrap (create_schema f)
migrate_from other f = failed (schema_state_error other)

-- `QCArchive.migrate`, on a file that may be missing
unfoldable pub migrate_archive : Option QcFile → QcResult QcFile
migrate_archive none = migrate_from fresh empty_file
migrate_archive (some f) = migrate_from (inspect f) f
