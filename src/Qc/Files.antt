-- ===== src/Qc/Files.antt =====
-- qc_archive.py: which files the migration accepts, and what it does to them.
use smartwatch_clank.Base.{
  ◌≡◌, ◌⊎◌, inl, inr, ◌≢◌, refl, ap, ◌∙◌, true, Option, none, some, List, [], arith,
}
use smartwatch_clank.Qc.{
  QcFile, QcRow, QcState, post_bootstrap, corrupt, fresh, unknown_or_wrong_shape, compatible, done,
  failed, schema_state_error, empty_file, set_equal, inspect, create_schema, after_bootstrap,
  migrate_from, migrate_archive,
}

fresh_has_no_tables : (f : QcFile) → inspect f ≡ fresh → (f.tables ≡ []) × (f.sound ≡ true)
unfolding inspect
fresh_has_no_tables f h = (ground arith, ground arith)

bootstrap_new :
    (rows : List QcRow)
    → inspect (create_schema (record { sound = true; tables = []; rows = rows })) ≡ compatible
unfolding inspect create_schema set_equal
bootstrap_new rows = refl

as_new :
    (f : QcFile)
    → f.tables ≡ []
    → f.sound ≡ true
    → f ≡ record { sound = true; tables = []; rows = f.rows }
as_new f t s = cc

bootstrapped : (f : QcFile) → inspect f ≡ fresh → inspect (create_schema f) ≡ compatible
bootstrapped f h =
    let (t, s) = fresh_has_no_tables f h in
    ap (λ g. inspect (create_schema g)) (as_new f t s) ∙ bootstrap_new f.rows

same_rows : (f : QcFile) → (create_schema f).rows ≡ f.rows
unfolding create_schema
same_rows f = ground arith

abbrev pub rows_of_file : Option QcFile → List QcRow
rows_of_file none = []
rows_of_file (some f) = f.rows

abbrev pub state_of : Option QcFile → QcState
state_of none = fresh
state_of (some f) = inspect f

migrated_from :
    (f : QcFile) (s : QcState)
    → inspect f ≡ s
    → ((g : QcFile) × (migrate_from s f ≡ done g) × (inspect g ≡ compatible) × (g.rows ≡ f.rows))
      ⊎ ((migrate_from s f ≡ failed (schema_state_error s)) × (s ≢ fresh) × (s ≢ compatible))
unfolding migrate_from after_bootstrap
migrated_from f compatible h = inl (f, refl, h, refl)
migrated_from f fresh h =
    inl (create_schema f, rw (bootstrapped f h) refl, bootstrapped f h, same_rows f)
migrated_from f corrupt h = inr (refl, λ e. cc, λ e. cc)
migrated_from f unknown_or_wrong_shape h = inr (refl, λ e. cc, λ e. cc)
migrated_from f (post_bootstrap s) h = inr (refl, λ e. cc, λ e. cc)

new_is_fresh : inspect empty_file ≡ fresh
unfolding inspect
new_is_fresh = refl

again :
    (f : QcFile) (s : QcState)
    → ((g : QcFile) × (migrate_from s f ≡ done g) × (inspect g ≡ compatible) × (g.rows ≡ f.rows))
      ⊎ ((migrate_from s f ≡ failed (schema_state_error s)) × (s ≢ fresh) × (s ≢ compatible))
    → ((g : QcFile) × (migrate_from s f ≡ done g)
        × (inspect g ≡ compatible)
        × (g.rows ≡ f.rows)
        × (migrate_archive (some g) ≡ done g))
      ⊎ ((migrate_from s f ≡ failed (schema_state_error s)) × (s ≢ fresh) × (s ≢ compatible))
unfolding migrate_archive
again f s (inl (g, e, c, r)) = inl (g, e, c, r, rw c (unfold migrate_from in refl))
again f s (inr r) = inr r

-- The migration leaves a file of the one known shape, with the decisions that it had, or it refuses
-- the file for the state that it finds, which is neither fresh nor compatible: a new file is never
-- found wrong after it has been set up.
pub migrate_archive_ends :
    (file : Option QcFile)
    → ((g : QcFile) × (migrate_archive file ≡ done g)
        × (inspect g ≡ compatible)
        × (g.rows ≡ rows_of_file file)
        × (migrate_archive (some g) ≡ done g))
      ⊎ ((migrate_archive file ≡ failed (schema_state_error (state_of file)))
          × (state_of file ≢ fresh)
          × (state_of file ≢ compatible))
unfolding migrate_archive
migrate_archive_ends none = again empty_file fresh (migrated_from empty_file fresh new_is_fresh)
migrate_archive_ends (some f) = again f (inspect f) (migrated_from f (inspect f) refl)
