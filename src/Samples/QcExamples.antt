-- ===== src/Samples/QcExamples.antt =====
-- Examples for the QC archive.
use smartwatch_clank.Base.{
  ◌≡◌, ◌≢◌, ◌⊎◌, refl, true, none, some, List, [], ◌∷◌, contains, if◌then◌else◌, ◌==◌, nat_eq,
  string_eq, lookup, count_if,
}
use smartwatch_clank.Qc.{
  QcFile, QcRow, Subject, QcResult, done, failed, fresh, compatible, qc_decisions, qc_row,
  insert_decision, decide_qc, decision_for, by_decision, schema_state_error, inspect,
  migrate_archive,
}
use smartwatch_clank.Qc.Decisions.{decide_qc_lem, status_counts, counted}
use smartwatch_clank.Qc.Files.{migrate_archive_ends, rows_of_file, state_of}

abbrev subject : Subject
subject = record {
  id = 7;
  run_id = some 2;
  collector = some "samsung";
  identity = some "samsung:watch";
  change_type = some "price_changed";
  confidence = none;
  editorial_level = none;
  source_url = none;
  discovered_at = none;
  previous_json = none;
  current_json = none;
  evidence_json = none;
}

abbrev got : QcResult (List QcRow) → List QcRow
got (done rows) = rows
got (failed e) = []

abbrev first_rows : List QcRow
first_rows = got (decide_qc "2026-01-01" subject "USEFUL" none "local_operator" [])

first_decision : decide_qc "2026-01-01" subject "USEFUL" none "local_operator" [] ≡ done first_rows
unfolding decide_qc insert_decision qc_row
first_decision = refl

decide_qc_lem_example :
    (contains qc_decisions "USEFUL" ≡ true)
    × (decision_for 7 [] ≡ none)
    × (row : QcRow) × (row.decision ≡ "USEFUL")
    × (decision_for 7 first_rows ≡ (if subject.id == 7 then some row else decision_for 7 []))
decide_qc_lem_example =
    decide_qc_lem "2026-01-01" subject "USEFUL" none "local_operator" [] first_rows 7 first_decision

status_counts_example :
    lookup "USEFUL" (by_decision first_rows)
    ≡ counted (count_if (λ (r : QcRow). r.decision == "USEFUL") first_rows)
status_counts_example = status_counts first_rows "USEFUL"

-- a file with a table of another name
abbrev foreign : QcFile
foreign = record { sound = true; tables = ("notes", "id" ∷ []) ∷ []; rows = [] }

migrate_archive_ends_example :
    ((g : QcFile) × (migrate_archive (some foreign) ≡ done g)
      × (inspect g ≡ compatible)
      × (g.rows ≡ rows_of_file (some foreign))
      × (migrate_archive (some g) ≡ done g))
    ⊎ ((migrate_archive (some foreign) ≡ failed (schema_state_error (state_of (some foreign))))
        × (state_of (some foreign) ≢ fresh)
        × (state_of (some foreign) ≢ compatible))
migrate_archive_ends_example = migrate_archive_ends (some foreign)
