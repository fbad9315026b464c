-- ===== src/Schema/Untouched.antt =====
-- core/schema_state.py and core/store.py: the databases that construction admits as they stand.
use smartwatch_clank.Base.{
  String, ◌≡◌, refl, Option, some, List, [], ◌∷◌, Dict, has_key, nat_eq, string_eq, false≢true,
}
use smartwatch_clank.Platform.{Platform, whole}
use smartwatch_clank.Schema.{
  Database, compatible, inspect_existing, inspect_structure, inspect_marker, inspect_tables,
  inspect_schema, admit_as, admit_compatibility, admitted,
}
use smartwatch_clank.Schema.Tables.{expected_schema_version}
use smartwatch_clank.Schema.Verdicts.{IsCompatible, structure-compatible}

module _ (p : Platform) (d : Database) (h : IsCompatible p d) where
  marker-compatible : (inspect_marker p d expected_schema_version).state ≡ compatible
  unfolding inspect_marker inspect_structure
  marker-compatible =
      let (v, vs, e, n) = h.versions in
      rw (inspect_marker, e, n)
        ((structure-compatible d.tables expected_schema_version (whole expected_schema_version)).1
          (h.no_missing_tables, h.no_missing_columns))

  existing-compatible : (inspect_existing p d expected_schema_version).state ≡ compatible
  unfolding inspect_existing
  existing-compatible = rw (inspect_existing, h.marked, h.readable) marker-compatible

  schema-compatible : (inspect_schema p d expected_schema_version).state ≡ compatible
  unfolding inspect_schema inspect_tables has_key
  schema-compatible = rw (inspect_schema, h.sound) (go d.tables refl)
    where
      go :
          (ts : Dict (List String))
          → d.tables ≡ ts
          → (inspect_tables p d expected_schema_version).state ≡ compatible
      go [] e = absurd (false≢true (rw (has_key, e) at h.marked))
      go (t ∷ ts) e = rw (inspect_tables, e) existing-compatible

-- A database that passes the check of SQLite, whose marker is there, readable, and reports exactly the
-- expected version, and that lacks no expected table and no required column of `runs`, is admitted as it
-- stands: no migration is attempted, so that none can fail.
pub IsCompatible-admitted :
    (p : Platform) (fault : Option Database) (d : Database)
    → IsCompatible p d
    → admit_compatibility p fault (some d) ≡ admitted d
unfolding admit_compatibility
IsCompatible-admitted p fault d h = rw (admit_as, schema-compatible p d h) refl
