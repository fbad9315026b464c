-- ===== src/Samples/RunExamples.antt =====
-- Examples for the runner.
use smartwatch_clank.Base.{
  String, ◌≡◌, refl, true, false, Option, none, some, length, lookup, put, sort_by,
}
use smartwatch_clank.Base.Json.{end}
use smartwatch_clank.Base.Result.{Result, ok, err, value_error}
use smartwatch_clank.Models.{RunOutcome, CollectorResult, Observation}
use smartwatch_clank.Registry.{Collector}
use smartwatch_clank.Store.{Store, fresh}
use smartwatch_clank.Store.Runs.{
  by_identity, index_onto, run_items, run_row, counts_as_healthy, insert_discoveries, save_health,
  last_healthy_catalogue, has_healthy_run, last_healthy_run, catalogue_of, save_run, save_items,
  insert_observations,
}
use smartwatch_clank.Store.Runs.Saved.{IsStored}
use smartwatch_clank.Store.Epochs.{record_qualification_terminal, event_exists}
use smartwatch_clank.Health.{assess_catalogue}
use smartwatch_clank.Runner.{
  run_in_epoch, conclude, settle_ok, settle_failed, attempt, count_before, has_duplicates,
  good_record, bad_record, run_record, good_outcome, bad_outcome,
}
use smartwatch_clank.Runner.Silence.{
  failed_run_keeps, healthy_run_replaces, other_collectors_keep, first_run_silent,
  Unchanged-run_silent,
}
use smartwatch_clank.Diff.Kinds.{Unchanged}
use smartwatch_clank.Samples.{host, found, samsung, runner, reading}

-- what a run that returns has returned
abbrev no_outcome : RunOutcome
no_outcome = record {
  collector = "";
  healthy = false;
  baseline = false;
  observation_count = 0;
  discovery_count = 0;
  warning = none;
  error = none;
}

abbrev got : Result (RunOutcome × Store) → RunOutcome × Store
got (ok r) = r
got (err e) = (no_outcome, fresh)

abbrev broken : Collector
broken = record samsung { result = err (value_error "no page") }

fresh-IsStored : IsStored fresh
fresh-IsStored = record { run_ids = tt; item_ids = tt }

abbrev good_run : RunOutcome × Store
good_run = got (run_in_epoch host runner "production" end samsung reading "e1" fresh)

abbrev bad_run : RunOutcome × Store
bad_run = got (run_in_epoch host runner "production" end broken reading "e1" fresh)

good_returns : run_in_epoch host runner "production" end samsung reading "e1" fresh ≡ ok good_run
unfolding run_in_epoch count_before has_healthy_run last_healthy_catalogue last_healthy_run
    catalogue_of attempt has_duplicates assess_catalogue settle_ok save_run save_items
    insert_observations good_record run_record
good_returns = refl

good_is_healthy : good_run.0.healthy ≡ true
unfolding run_in_epoch count_before has_healthy_run last_healthy_catalogue last_healthy_run
    catalogue_of attempt has_duplicates assess_catalogue settle_ok save_run save_items
    insert_observations good_record run_record good_outcome
good_is_healthy = refl

bad_returns : run_in_epoch host runner "production" end broken reading "e1" fresh ≡ ok bad_run
unfolding run_in_epoch attempt settle_failed save_run bad_record run_record
bad_returns = refl

bad_is_unhealthy : bad_run.0.healthy ≡ false
unfolding run_in_epoch attempt settle_failed save_run bad_record run_record bad_outcome
bad_is_unhealthy = refl

failed_run_keeps_example :
    (bad_run.1.observations ≡ fresh.observations)
    × (bad_run.1.discoveries ≡ fresh.discoveries)
    × (bad_run.1.notifications ≡ fresh.notifications)
    × (bad_run.0.discovery_count ≡ 0)
    × ((k : String) (e : Option String)
        → last_healthy_catalogue bad_run.1 k e ≡ last_healthy_catalogue fresh k e)
failed_run_keeps_example =
    failed_run_keeps host runner "production" end broken reading "e1" fresh bad_run.1 bad_run.0
      fresh-IsStored bad_returns bad_is_unhealthy

healthy_run_replaces_example :
    (result : CollectorResult) × (samsung.result ≡ ok result)
    × (good_run.0.observation_count ≡ length result.observations)
    × (last_healthy_catalogue good_run.1 "samsung" (some "e1")
        ≡ by_identity (sort_by (λ i. i.identity) result.observations))
healthy_run_replaces_example =
    healthy_run_replaces host runner "production" end samsung reading "e1" fresh good_run.1
      good_run.0 fresh-IsStored good_returns good_is_healthy

other_collectors_keep_example :
    last_healthy_catalogue good_run.1 "garmin" none ≡ last_healthy_catalogue fresh "garmin" none
other_collectors_keep_example =
    other_collectors_keep host runner "production" end samsung reading "e1" fresh good_run.1
      good_run.0 "garmin" none fresh-IsStored good_returns refl

none_before : has_healthy_run fresh "samsung" (some "e1") ≡ false
unfolding has_healthy_run
none_before = refl

first_run_silent_example :
    (good_run.0.discovery_count ≡ 0)
    × (good_run.1.discoveries ≡ fresh.discoveries)
    × (good_run.1.notifications ≡ fresh.notifications)
first_run_silent_example =
    first_run_silent host runner "production" end samsung reading "e1" fresh good_run.1 good_run.0
      good_returns none_before

Unchanged-self : (o : Option Observation) → Unchanged o o
Unchanged-self none = tt
Unchanged-self (some a) = refl

abbrev second_run : RunOutcome × Store
second_run = got (run_in_epoch host runner "production" end samsung reading "e1" good_run.1)

second_returns :
    run_in_epoch host runner "production" end samsung reading "e1" good_run.1 ≡ ok second_run
unfolding run_in_epoch count_before has_healthy_run last_healthy_catalogue last_healthy_run
    catalogue_of attempt has_duplicates assess_catalogue settle_ok save_run save_items
    insert_observations good_record run_record conclude save_health record_qualification_terminal
    event_exists insert_discoveries run_row counts_as_healthy run_items by_identity index_onto put
    sort_by
second_returns = refl

same_catalogue :
    (k : String)
    → Unchanged
        (lookup k (last_healthy_catalogue good_run.1 "samsung" (some "e1")))
        (lookup k (by_identity found.observations))
unfolding run_in_epoch count_before has_healthy_run last_healthy_catalogue last_healthy_run
    catalogue_of attempt has_duplicates assess_catalogue settle_ok save_run save_items
    insert_observations good_record run_record conclude save_health record_qualification_terminal
    event_exists run_row counts_as_healthy run_items sort_by
same_catalogue k = Unchanged-self (lookup k (by_identity found.observations))

Unchanged-run_silent_example :
    (second_run.0.discovery_count ≡ 0)
    × (second_run.1.discoveries ≡ good_run.1.discoveries)
    × (second_run.1.notifications ≡ good_run.1.notifications)
Unchanged-run_silent_example =
    Unchanged-run_silent host runner "production" end samsung reading "e1" good_run.1 second_run.1
      second_run.0 found second_returns refl same_catalogue
