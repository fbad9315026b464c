-- ===== src/Schema.antt =====
-- src/smartwatch_clank/core/schema_state.py, and in core/store.py `_admit_compatibility` and
-- `_migrate`: the verdict on a database file, and what construction does with it. A `Database` is what
-- the inspection reads of a file. The texts of the reasons are left out of a report.
pub mod Tables
pub mod Verdicts
pub mod Untouched
use smartwatch_clank.Base.{
  ℕ, suc, String, Bool, true, false, not, ◌&&◌, ◌||◌, Option, none, some, List, [], ◌∷◌, ◌++◌, map,
  Dict, lookup, has_key, put, keep_if, all_of, contains, leb, ltb, if◌then◌else◌, ◌==◌, nat_eq,
  string_eq,
}
use smartwatch_clank.Platform.{Platform, Signed, below, whole}
use Tables.{
  expected_schema_version, schema_version_table, expected_tables, required_columns,
  first_generation, second_generation, schema_tables, added_columns,
}

-- A value of the column `version`.
pub data Cell : Type 0 where
  integer : Signed → Cell
  text : String → Cell
  -- NULL, a real number or a blob
  other : Cell

-- What `PRAGMA quick_check` says: ok, another report, or a DatabaseError.
pub data Check : Type 0 where
  sound reported unusable : Check

pub record Database : Type 0 where
  pub check : Check
  -- the user tables, each with its columns
  pub tables : Dict (List String)
  -- the rows of `schema_version`: id and version
  pub markers : List (Signed × Cell)

pub data SchemaState : Type 0 where
  fresh migration_required compatible incompatible_newer unknown corrupt partial : SchemaState

pub record Report : Type 0 where
  pub state : SchemaState
  pub expected_version : ℕ
  pub observed_version : Option Signed
  pub missing_tables : List String
  pub missing_columns : List String

abbrev verdict : SchemaState → ℕ → Option Signed → Report
verdict state expected observed = record {
  state = state;
  expected_version = expected;
  observed_version = observed;
  missing_tables = [];
  missing_columns = [];
}

abbrev pub columns_of : Dict (List String) → String → List String
columns_of tables t = elim (lookup t tables) [ none ↦ [] | some columns ↦ columns ]

-- the elements of `xs` that are not in `ys`
unfoldable pub missing_from : List String → List String → List String
missing_from ys xs = keep_if (λ x. not (contains ys x)) xs

-- `actual == required`, for sets
unfoldable pub same_set : List String → List String → Bool
same_set xs ys = all_of (contains xs) ys && all_of (contains ys) xs

-- `_recognized_legacy_generation`: the version of the generation
unfoldable pub recognized_legacy_generation : Dict (List String) → Option ℕ
recognized_legacy_generation tables =
    let actual = columns_of tables "runs" in
    if not (same_set (map (λ t. t.0) tables) ("runs" ∷ []))
    then none
    else if same_set actual first_generation
    then some 1
    else if same_set actual second_generation
    then some 2
    else none

abbrev and_version : Signed → Option (List Signed) → Option (List Signed)
and_version v none = none
and_version v (some vs) = some (v ∷ vs)

-- the loop that reads the versions; `none` is a version that is no integer
unfoldable pub read_versions : Platform → List (Signed × Cell) → Option (List Signed)
read_versions p [] = some []
read_versions p ((id, integer v) ∷ rows) = and_version v (read_versions p rows)
read_versions p ((id, text s) ∷ rows) =
    let rest = read_versions p rows in
    elim (p.read_int s) [ none ↦ none | some v ↦ and_version v rest ]
read_versions p ((id, other) ∷ rows) = none

abbrev max_of : Signed → Signed → Signed
max_of (whole a) (whole b) = whole (if leb a b then b else a)
max_of (whole a) (below b) = whole a
max_of (below a) (whole b) = whole b
max_of (below a) (below b) = below (if leb a b then a else b)

abbrev pub newest : Signed → List Signed → Signed
newest v [] = v
newest v (w ∷ ws) = max_of v (newest w ws)

-- how a version stands to the expected one
pub data Standing : Type 0 where
  newer equal older : Standing

abbrev pub standing : Signed → ℕ → Standing
standing (below n) expected = older
standing (whole n) expected =
    if ltb expected n then newer else if n == expected then equal else older

-- `if missing_tables or missing_columns`
abbrev pub structural : List String → List String → SchemaState
structural [] [] = compatible
structural [] (c ∷ cs) = partial
structural (t ∷ ts) columns = partial

-- the structural part: the tables, and the columns of `runs`
unfoldable pub inspect_structure : Dict (List String) → ℕ → Signed → Report
inspect_structure tables expected observed =
    let absent = missing_from (map (λ t. t.0) tables) expected_tables in
    let columns =
      if has_key "runs" tables
      then missing_from (columns_of tables "runs") required_columns
      else [] in
    record {
      state = structural absent columns;
      expected_version = expected;
      observed_version = some observed;
      missing_tables = absent;
      missing_columns = columns;
    }

-- the part from the reading of the marker on
unfoldable pub inspect_marker : Platform → Database → ℕ → Report
inspect_marker p d expected = elim (read_versions p d.markers) [
  | none ↦ verdict unknown expected none
  | some [] ↦ verdict unknown expected (some (whole 0))
  | some (v ∷ vs) ↦ elim (standing (newest v vs) expected) [
    | newer ↦ verdict incompatible_newer expected (some (newest v vs))
    | older ↦ verdict migration_required expected (some (newest v vs))
    | equal ↦ inspect_structure d.tables expected (newest v vs)
  ]
]

abbrev pub legacy : ℕ → Option ℕ → Report
legacy expected none = verdict unknown expected none
legacy expected (some version) = verdict migration_required expected (some (whole version))

-- the part for a file with tables
unfoldable pub inspect_existing : Platform → Database → ℕ → Report
inspect_existing p d expected =
    if not (has_key schema_version_table d.tables)
    then legacy expected (recognized_legacy_generation d.tables)
    else if not
        (all_of (contains (columns_of d.tables schema_version_table)) ("id" ∷ "version" ∷ []))
    then verdict unknown expected none
    else inspect_marker p d expected

-- the part from the listing of the tables on
unfoldable pub inspect_tables : Platform → Database → ℕ → Report
inspect_tables p d expected = elim d.tables [
  | [] ↦ verdict fresh expected none
  | _ ∷ _ ↦ inspect_existing p d expected
]

-- `inspect_schema`
unfoldable pub inspect_schema : Platform → Database → ℕ → Report
inspect_schema p d expected = elim d.check [
  | sound ↦ inspect_tables p d expected
  | _ ↦ verdict corrupt expected none
]

-- `inspect_store`: a file that is absent is fresh
unfoldable pub inspect_store : Platform → Option Database → Report
inspect_store p none = verdict fresh expected_schema_version none
inspect_store p (some d) = inspect_schema p d expected_schema_version

-- CREATE TABLE IF NOT EXISTS, for each table of the script
unfoldable pub create_tables : Dict (List String) → Dict (List String) → Dict (List String)
create_tables [] tables = tables
create_tables ((t, columns) ∷ ts) tables =
    create_tables ts (if has_key t tables then tables else tables ++ (t, columns) ∷ [])

-- ALTER TABLE runs ADD COLUMN, for each column that is missing
unfoldable pub add_columns : List String → List String → List String
add_columns [] columns = columns
add_columns (c ∷ cs) columns =
    add_columns cs (if contains columns c then columns else columns ++ c ∷ [])

abbrev is_one : Signed → Bool
is_one (below n) = false
is_one (whole n) = n == 1

-- excluded.version > schema_version.version; an integer is below every text
abbrev below_version : ℕ → Cell → Bool
below_version version (integer (below n)) = true
below_version version (integer (whole n)) = ltb n version
below_version version (text s) = false
below_version version other = false

-- INSERT INTO schema_version ... ON CONFLICT(id) DO UPDATE ... WHERE ...
unfoldable pub stamp : ℕ → List (Signed × Cell) → List (Signed × Cell)
stamp version [] = (whole 1, integer (whole version)) ∷ []
stamp version ((id, v) ∷ rows) =
    let rest = stamp version rows in
    if is_one id
    then (id, if below_version version v then integer (whole version) else v) ∷ rows
    else (id, v) ∷ rest

-- `SQLiteStore._migrate`
unfoldable pub migrate : Database → Database
migrate d =
    let tables = create_tables schema_tables d.tables in
    record d {
      tables = put "runs" (add_columns added_columns (columns_of tables "runs")) tables;
      markers = stamp expected_schema_version d.markers;
    }

abbrev pub empty_database : Database
empty_database = record { check = sound; tables = []; markers = [] }

-- What construction ends with: a store that is admitted, or a SchemaStateError with its report. Both
-- leave a file.
pub data Admission : Type 0 where
  admitted : Database → Admission
  refused : Report → Option Database → Admission

-- the end of the migration, by the state that the inspection behind it reports
abbrev pub verified_as : Report → Database → SchemaState → Admission
verified_as post d compatible = admitted d
verified_as post d _ = refused post (some d)

-- the migration, and the inspection behind it; `fault` is a sqlite3.Error in it, with what it leaves
unfoldable pub migrate_and_verify : Platform → (fault : Option Database) → Database → Admission
migrate_and_verify p (some left) d =
    refused (verdict unknown expected_schema_version none) (some left)
migrate_and_verify p none d =
    let post = inspect_store p (some (migrate d)) in verified_as post (migrate d) post.state

-- the branches on the state of a file that exists
abbrev pub admit_as :
    Platform → (fault : Option Database) → Database → Report → SchemaState → Admission
admit_as p fault d report compatible = admitted d
admit_as p fault d report fresh = migrate_and_verify p fault d
admit_as p fault d report migration_required = migrate_and_verify p fault d
admit_as p fault d report _ = refused report (some d)

-- `SQLiteStore._admit_compatibility`
unfoldable pub admit_compatibility :
    Platform → (fault : Option Database) → Option Database → Admission
admit_compatibility p fault none = migrate_and_verify p fault empty_database
admit_compatibility p fault (some d) =
    let report = inspect_schema p d expected_schema_version in
    admit_as p fault d report report.state
