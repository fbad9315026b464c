-- ===== src/Samples/WatchExamples.antt =====
-- Examples for whole runs and for the runs of an invocation.
use smartwatch_clank.Base.{
  ◌≡◌, refl, false, none, List, [], ◌∷◌, map, All, if◌then◌else◌, ◌==◌, string_eq,
}
use smartwatch_clank.Base.Json.{end}
use smartwatch_clank.Base.Result.{Result, ok, err, value_error}
use smartwatch_clank.Models.{RunOutcome}
use smartwatch_clank.Qualification.{identity}
use smartwatch_clank.Registry.{Collector}
use smartwatch_clank.Store.{Store, fresh}
use smartwatch_clank.Store.Runs.{
  has_healthy_run, last_healthy_run, last_healthy_catalogue, catalogue_of, save_run, save_items,
  insert_observations,
}
use smartwatch_clank.Store.Epochs.{
  epoch_exists, event_exists, current_epoch, start_epoch, prepare_qualification, with_epoch,
}
use smartwatch_clank.Health.{assess_catalogue}
use smartwatch_clank.Runner.{
  run_one, run_each, run_in_epoch, settle_ok, attempt, count_before, has_duplicates, good_record,
  run_record, material,
}
use smartwatch_clank.Runner.Consistent.{IsConsistent}
use smartwatch_clank.Runner.Each.{run_each-IsConsistent}
use smartwatch_clank.Runner.Machine.{view, watched}
use smartwatch_clank.Runner.Refine.{run_one_refines, watched_step}
use smartwatch_clank.Runner.Returns.{IsFresh, run_each_returns}
use smartwatch_clank.Samples.{host, samsung, runner, reading}

abbrev garmin : Collector
garmin = record samsung { name = "garmin"; result = err (value_error "no page") }

abbrev both : List Collector
both = samsung ∷ garmin ∷ []

fresh-IsConsistent : IsConsistent fresh
fresh-IsConsistent = record {
  stored = record { run_ids = tt; item_ids = tt };
  run_epochs = tt;
  event_epochs = tt;
}

new_uuids : All (λ (c : Collector). IsFresh fresh c.name reading) both
unfolding epoch_exists
new_uuids = (
  record { new_epoch = refl; new_execution = refl },
  (record { new_epoch = refl; new_execution = refl }, tt),
)

distinct_names : has_duplicates (map (λ (c : Collector). c.name) both) ≡ false
unfolding has_duplicates
distinct_names = refl

run_each_returns_example :
    (r : List RunOutcome × Store) × (run_each host runner "production" end (λ c. reading) both fresh
      ≡ ok r)
    × (map (λ o. o.collector) r.0 ≡ map (λ (c : Collector). c.name) both)
run_each_returns_example =
    run_each_returns host runner "production" end (λ c. reading) both fresh distinct_names new_uuids

abbrev got_each : Result (List RunOutcome × Store) → List RunOutcome × Store
got_each (ok r) = r
got_each (err e) = ([], fresh)

abbrev both_runs : List RunOutcome × Store
both_runs = got_each (run_each host runner "production" end (λ c. reading) both fresh)

both_return : run_each host runner "production" end (λ c. reading) both fresh ≡ ok both_runs
both_return =
    let (r, e, _) =
      run_each_returns host runner "production" end (λ c. reading) both fresh distinct_names
        new_uuids in
    rw e refl

run_each-IsConsistent_example : IsConsistent both_runs.1
run_each-IsConsistent_example =
    run_each-IsConsistent host runner "production" end (λ c. reading) both fresh both_runs.1
      both_runs.0 fresh-IsConsistent both_return

abbrev no_outcome : RunOutcome
no_outcome = record {
  collector = "";
  healthy = false;
  baseline = false;
  observation_count = 0;
  discovery_count = 0;
  warning = none;
  error = none;
}

abbrev got : Result (RunOutcome × Store) → RunOutcome × Store
got (ok r) = r
got (err e) = (no_outcome, fresh)

abbrev first_run : RunOutcome × Store
first_run = got (run_one host runner "production" end samsung reading fresh)

first_returns : run_one host runner "production" end samsung reading fresh ≡ ok first_run
unfolding run_one prepare_qualification current_epoch start_epoch epoch_exists event_exists
    run_in_epoch count_before has_healthy_run last_healthy_catalogue last_healthy_run catalogue_of
    attempt has_duplicates assess_catalogue settle_ok save_run save_items insert_observations
    good_record run_record with_epoch
first_returns = refl

run_one_refines_example :
    (first_run.0.healthy
      ≡ (watched_step host runner "production" end samsung reading fresh).healthy)
    × (first_run.0.discovery_count
        ≡ (watched_step host runner "production" end samsung reading fresh).discovery_count)
    × (view first_run.1 "samsung" ≡ (
        if samsung.name == "samsung"
        then watched
            (identity host (material host runner "production" end samsung reading))
            (watched_step host runner "production" end samsung reading fresh).baseline
        else view fresh "samsung"))
run_one_refines_example =
    run_one_refines host runner "production" end samsung reading fresh first_run.1 first_run.0
      "samsung" fresh-IsConsistent first_returns
