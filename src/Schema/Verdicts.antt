-- ===== src/Schema/Verdicts.antt =====
-- core/schema_state.py and core/store.py: which databases are admitted, and what is written to them.
use smartwatch_clank.Base.{
  ℕ, String, ◌≡◌, ◌≢◌, ◌↔◌, inl, inr, refl, sym, ◌∙◌, subst, Bool, true, false, not, Option, none,
  some, List, [], ◌∷◌, map, Dict, has_key, all_of, contains, if◌then◌else◌, nat_eq, string_eq,
  Bool-cases, eq_iff, arith,
}
use smartwatch_clank.Platform.{Platform, Signed, below, whole}
use smartwatch_clank.Schema.{
  Check, sound, reported, unusable, Database, SchemaState, fresh, migration_required, compatible,
  Report, legacy, inspect_existing, columns_of, missing_from, read_versions, newest, Standing,
  newer, equal, older, standing, structural, inspect_structure, inspect_marker, inspect_tables,
  inspect_schema, inspect_store, migrate, verified_as, migrate_and_verify, admit_as,
  admit_compatibility, admitted, empty_database,
}
use smartwatch_clank.Schema.Tables.{
  expected_schema_version, schema_version_table, expected_tables, required_columns,
}

-- What compatibility asks of a database.
pub record IsCompatible (p : Platform) (d : Database) : Type 0 where
  pub sound : d.check ≡ sound
  pub marked : has_key schema_version_table d.tables ≡ true
  pub readable :
      all_of (contains (columns_of d.tables schema_version_table)) ("id" ∷ "version" ∷ []) ≡ true
  pub versions :
      (v : Signed) × (vs : List Signed) × (read_versions p d.markers ≡ some (v ∷ vs))
      × (newest v vs ≡ whole expected_schema_version)
  pub no_missing_tables : missing_from (map (λ t. t.0) d.tables) expected_tables ≡ []
  pub no_missing_columns : missing_from (columns_of d.tables "runs") required_columns ≡ []

standing-equal : (v : Signed) (n : ℕ) → standing v n ≡ equal → v ≡ whole n
standing-equal (below k) n h = absurd (cc h)
standing-equal (whole k) n h = ground arith

structural-compatible :
    (ts cs : List String) → structural ts cs ≡ compatible → (ts ≡ []) × (cs ≡ [])
structural-compatible [] [] h = (refl, refl)
structural-compatible [] (c ∷ cs) h = absurd (cc h)
structural-compatible (t ∷ ts) cs h = absurd (cc h)

contains-keys :
    (t : String) (tables : Dict (List String))
    → contains (map (λ e. e.0) tables) t ≡ has_key t tables
unfolding has_key
contains-keys t [] = refl
contains-keys t ((k, v) ∷ tables) = ground (arith, contains-keys t tables, eq_iff k t, eq_iff t k)

nil_if : (b : Bool) (x : String) (xs : List String) → (if not b then x ∷ xs else xs) ≡ [] → b ≡ true
nil_if true x xs h = refl
nil_if false x xs h = absurd (cc h)

missing_from-head :
    (ys : List String) (x : String) (xs : List String)
    → missing_from ys (x ∷ xs) ≡ []
    → contains ys x ≡ true
unfolding missing_from
missing_from-head ys x xs h = nil_if _ x _ h

runs_there :
    (tables : Dict (List String))
    → missing_from (map (λ t. t.0) tables) expected_tables ≡ []
    → has_key "runs" tables ≡ true
runs_there tables h = sym (contains-keys "runs" tables) ∙ missing_from-head _ "runs" _ h

pub structure-compatible :
    (tables : Dict (List String)) (n : ℕ) (v : Signed)
    → ((inspect_structure tables n v).state ≡ compatible) ↔ (
        (missing_from (map (λ t. t.0) tables) expected_tables ≡ [])
        × (missing_from (columns_of tables "runs") required_columns ≡ []))
unfolding inspect_structure
structure-compatible tables n v = (
  λ h. let (a, b) = structural-compatible _ _ h in (a, rw (runs_there tables a) at b),
  λ h. rw (h.0, runs_there tables h.0, h.1),
)

standing-compatible :
    (p : Platform) (d : Database) (v : Signed) (vs : List Signed) (x : Standing)
    → read_versions p d.markers ≡ some (v ∷ vs)
    → standing (newest v vs) expected_schema_version ≡ x
    → (inspect_marker p d expected_schema_version).state ≡ compatible
    → (x ≡ equal)
      × ((inspect_structure d.tables expected_schema_version (newest v vs)).state ≡ compatible)
unfolding inspect_marker
standing-compatible p d v vs newer e s h = absurd (cc (rw (e, s, inspect_marker) at h))
standing-compatible p d v vs older e s h = absurd (cc (rw (e, s, inspect_marker) at h))
standing-compatible p d v vs equal e s h = (refl, rw (e, s, inspect_marker) at h)

marker_versions :
    (p : Platform) (d : Database)
    → (inspect_marker p d expected_schema_version).state ≡ compatible
    → (v : Signed) × (vs : List Signed) × (read_versions p d.markers ≡ some (v ∷ vs))
unfolding inspect_marker
marker_versions p d h = go (read_versions p d.markers) refl
  where
    go :
        (r : Option (List Signed))
        → read_versions p d.markers ≡ r
        → (v : Signed) × (vs : List Signed) × (read_versions p d.markers ≡ some (v ∷ vs))
    go none e = absurd (cc (rw (e, inspect_marker) at h))
    go (some []) e = absurd (cc (rw (e, inspect_marker) at h))
    go (some (v ∷ vs)) e = (v, vs, e)

marker-IsCompatible :
    (p : Platform) (d : Database)
    → d.check ≡ Check.sound
    → has_key schema_version_table d.tables ≡ true
    → all_of (contains (columns_of d.tables schema_version_table)) ("id" ∷ "version" ∷ []) ≡ true
    → (inspect_marker p d expected_schema_version).state ≡ compatible
    → IsCompatible p d
marker-IsCompatible p d c m r h =
    let (v, vs, e) = marker_versions p d h in
    let (q, s) = standing-compatible p d v vs _ e refl h in
    let (a, b) = (structure-compatible d.tables expected_schema_version (newest v vs)).0 s in
    record {
      sound = c;
      marked = m;
      readable = r;
      versions = (v, vs, e, standing-equal _ _ q);
      no_missing_tables = a;
      no_missing_columns = b;
    }

legacy-incompatible : (n : ℕ) (o : Option ℕ) → (legacy n o).state ≢ compatible
legacy-incompatible n none h = cc h
legacy-incompatible n (some v) h = cc h

existing-IsCompatible :
    (p : Platform) (d : Database)
    → d.check ≡ Check.sound
    → (inspect_existing p d expected_schema_version).state ≡ compatible
    → IsCompatible p d
unfolding inspect_existing
existing-IsCompatible p d c h = elim (Bool-cases (has_key schema_version_table d.tables)) [
  | inr m ↦ absurd (legacy-incompatible _ _ (rw (m, inspect_existing) at h))
  | inl m ↦
      elim (Bool-cases
        (all_of (contains (columns_of d.tables schema_version_table)) ("id" ∷ "version" ∷ []))) [
          | inr r ↦ absurd (cc (rw (m, r, inspect_existing) at h))
          | inl r ↦ marker-IsCompatible p d c m r (rw (m, r, inspect_existing) at h)
        ]
]

tables-IsCompatible :
    (p : Platform) (d : Database)
    → d.check ≡ Check.sound
    → (inspect_tables p d expected_schema_version).state ≡ compatible
    → IsCompatible p d
unfolding inspect_tables
tables-IsCompatible p d c h = go d.tables refl
  where
    go : (ts : Dict (List String)) → d.tables ≡ ts → IsCompatible p d
    go [] e = absurd (cc (rw (e, inspect_tables) at h))
    go (t ∷ ts) e = existing-IsCompatible p d c (rw (e, inspect_tables) at h)

-- A database is found compatible only if it passes the check of SQLite, its marker is there,
-- readable, and reports exactly the expected version, and no expected table and no required column
-- of `runs` is missing: neither the marker nor the structure is enough.
pub compatible-IsCompatible :
    (p : Platform) (d : Database)
    → (inspect_schema p d expected_schema_version).state ≡ compatible
    → IsCompatible p d
unfolding inspect_schema
compatible-IsCompatible p d h = go d.check refl
  where
    go : (c : Check) → d.check ≡ c → IsCompatible p d
    go sound e = tables-IsCompatible p d e (rw (e, inspect_schema) at h)
    go reported e = absurd (cc (rw (e, inspect_schema) at h))
    go unusable e = absurd (cc (rw (e, inspect_schema) at h))

admitted_inj : (a b : Database) → admitted a ≡ admitted b → a ≡ b
admitted_inj a b h = cc

verified-compatible :
    (r : Report) (a b : Database) (x : SchemaState)
    → verified_as r a x ≡ admitted b
    → (x ≡ compatible) × (a ≡ b)
verified-compatible r a b compatible h = (refl, admitted_inj a b h)
verified-compatible r a b _ h = absurd (cc h)

migrated-compatible :
    (p : Platform) (fault : Option Database) (a d : Database)
    → migrate_and_verify p fault a ≡ admitted d
    → (inspect_schema p d expected_schema_version).state ≡ compatible
unfolding migrate_and_verify inspect_store
migrated-compatible p (some left) a d h = absurd (cc h)
migrated-compatible p none a d h =
    let (s, e) = verified-compatible _ (migrate a) d _ h in
    subst (λ x. (inspect_schema p x expected_schema_version).state ≡ compatible) e s

admit_as-compatible :
    (p : Platform) (fault : Option Database) (a d : Database) (x : SchemaState)
    → (inspect_schema p a expected_schema_version).state ≡ x
    → admit_as p fault a (inspect_schema p a expected_schema_version) x ≡ admitted d
    → (inspect_schema p d expected_schema_version).state ≡ compatible
admit_as-compatible p fault a d compatible e h =
    subst (λ y. (inspect_schema p y expected_schema_version).state ≡ compatible)
      (admitted_inj a d h) e
admit_as-compatible p fault a d fresh e h = migrated-compatible p fault a d h
admit_as-compatible p fault a d migration_required e h = migrated-compatible p fault a d h
admit_as-compatible p fault a d _ e h = absurd (cc h)

-- A store that construction admits, whatever file it started from and whatever the migration did to
-- it, is found compatible when it is inspected.
pub admitted_compatible :
    (p : Platform) (fault file : Option Database) (d : Database)
    → admit_compatibility p fault file ≡ admitted d
    → (inspect_schema p d expected_schema_version).state ≡ compatible
unfolding admit_compatibility
admitted_compatible p fault none d h = migrated-compatible p fault empty_database d h
admitted_compatible p fault (some a) d h = admit_as-compatible p fault a d _ refl h
