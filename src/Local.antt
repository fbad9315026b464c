-- ===== src/Local.antt =====
-- src/smartwatch_clank/local_collection.py: the runs that an operator starts, and their controller. The
-- lock and the opening of the database come in as what they raised (Lock, Schema).
pub mod Turns
use Prim.Native.String.{◌++◌}
use text.Mathlib.Text.{starts_with}
use smartwatch_clank.Base.{
  ℕ, String, Bool, true, false, not, ◌&&◌, ◌||◌, Option, none, some, List, [], ◌∷◌, map, keep_if,
  sort_by, contains, collect, Dict, if◌then◌else◌, ◌==◌, string_eq,
}
use smartwatch_clank.Base.Json.{Fields, field, end, str}
use smartwatch_clank.Base.Result.{
  Exn, catalogue_health_error, source_health_error, value_error, key_error, integrity_error,
  other_error, Result, ok, err,
}
use smartwatch_clank.Platform.{Platform}
use smartwatch_clank.Models.{Observation, RunOutcome}
use smartwatch_clank.Registry.{Collector, Registry, all_collectors}
use smartwatch_clank.Store.{Store}
use smartwatch_clank.Store.Runs.{last_healthy_catalogue, has_healthy_run}
use smartwatch_clank.Lock.{LockError}
use smartwatch_clank.Samsung.{Ledger, reconcile_samsung}
use smartwatch_clank.Samsung.Ledgers.{persist_samsung_reconciliation}
use smartwatch_clank.Runner.{Runner, Reading, failure_name, run_selected}

-- `SQLiteStore.latest_healthy_observations`
unfoldable pub latest_healthy_observations : Store → List String → List Observation
latest_healthy_observations s collectors =
    sort_by (λ o. o.identity)
      (collect (λ c. map (λ e. e.1) (last_healthy_catalogue s c none)) collectors)

abbrev pub product_catalogue : String
product_catalogue = "samsung_product_catalogue"

unfoldable pub support_names : Registry → List String
support_names r =
    keep_if (λ name. starts_with name "samsung_support_") (map (λ c. c.name) (all_collectors r))

-- the reconciliation behind the runs: whether it took place with how many events, and the ledger
unfoldable pub reconcile_after : Registry → (now : ℕ) → Store → Ledger → Option ℕ × Ledger
reconcile_after registry now s l =
    if has_healthy_run s product_catalogue none
    then reconciled (
        persist_samsung_reconciliation now
          (reconcile_samsung (latest_healthy_observations s (product_catalogue ∷ []))
            (latest_healthy_observations s (support_names registry)))
          l)
    else (none, l)
  where
    reconciled : ℕ × Ledger → Option ℕ × Ledger
    reconciled (events, l') = (some events, l')

-- What the lock and the opening of the database raise, if anything.
pub record Entry : Type 0 where
  pub lock : Option LockError
  pub schema : Option String

-- How `with RunLock(...), SQLiteStore(...)` ends.
pub data Ending : Type 0 where
  lock_refused : LockError → Ending
  schema_refused : String → Ending
  raised : Exn → Ending
  collected : List RunOutcome → (reconciliation : Option ℕ) → Store → Ledger → Ending

module _ (p : Platform) (runner : Runner) (allowed : List String) (now : ℕ)
    (readings : Collector → Reading) where
  unfoldable pub after_runs : Result (List RunOutcome × Store) → Ledger → Ending
  unfolding reconcile_after
  after_runs (err e) l = raised e
  after_runs (ok (outcomes, s)) l =
      let r = reconcile_after runner.registry now s l in collected outcomes r.0 s r.1

  -- the body that `_run` and `run_finalized` share
  unfoldable pub collect_selected :
      Entry → (names : List String) → (mode : String) → Store → Ledger → Ending
  collect_selected e names mode s l = elim (e.lock) [
    | some x ↦ lock_refused x
    | none ↦ elim (e.schema) [
      | some x ↦ schema_refused x
      | none ↦
          after_runs (run_selected p runner names allowed (field "mode" (str mode) end) readings s)
            l
    ]
  ]

  -- `run_finalized`
  unfoldable pub run_finalized : Entry → Option (List String) → Store → Ledger → Ending
  run_finalized e names s l =
      collect_selected e (elim names [ none ↦ allowed | some ns ↦ ns ]) "field_test_run_finalized" s
        l

pub data Phase : Type 0 where
  idle queued running success degraded failed already_running : Phase

-- `_state`
pub record Snapshot : Type 0 where
  pub phase : Phase
  pub source : Option String
  pub started_at : Option ℕ
  pub finished_at : Option ℕ
  pub message : String
  pub outcomes : Option (List RunOutcome)
  pub reconciliation : Option ℕ

-- `LocalCollectionController.__init__`
abbrev pub ready : Snapshot
ready = record {
  phase = idle;
  source = none;
  started_at = none;
  finished_at = none;
  message = "Ready for manual local collection.";
  outcomes = none;
  reconciliation = none;
}

abbrev pub is_busy : Phase → Bool
is_busy queued = true
is_busy running = true
is_busy _ = false

-- What `start_collection` answers.
pub data Answer : Type 0 where
  source_not_allowed collection_already_running accepted : Answer

-- `LocalCollectionController.start`
unfoldable pub start_collection : (allowed : List String) → String → Snapshot → Answer × Snapshot
start_collection allowed source s =
    if not (contains allowed source)
    then (source_not_allowed, s)
    else if is_busy s.phase
    then (collection_already_running, s)
    else (
      accepted,
      record {
        phase = queued;
        source = some source;
        started_at = none;
        finished_at = none;
        message = "Collection queued.";
        outcomes = none;
        reconciliation = none;
      },
    )

-- the first step of `_run`
unfoldable pub begin : (now : ℕ) → Snapshot → Snapshot
begin now s = record s {
  phase = running;
  started_at = some now;
  message = "Collecting from the public source…";
}

-- f"{type(exc).__name__}: {exc}"
unfoldable pub exn_text : Exn → String
exn_text (catalogue_health_error m) = "CatalogueHealthError: " ++ m
exn_text (source_health_error f m) = failure_name f ++ (": " ++ m)
exn_text (value_error m) = "ValueError: " ++ m
exn_text (key_error m) = "KeyError: " ++ m
exn_text (integrity_error m) = "IntegrityError: " ++ m
exn_text (other_error n m) = n ++ (": " ++ m)

abbrev pub has_text : Option String → Bool
has_text none = false
has_text (some s) = not (s == "")

-- the state of an outcome
unfoldable pub phase_of : RunOutcome → Phase
phase_of o =
    if o.healthy && not (has_text o.warning)
    then success
    else if o.healthy
    then degraded
    else failed

unfoldable pub message_of : RunOutcome → String
message_of o =
    if o.healthy
    then "Collection completed; dashboard state refreshed."
    else if has_text o.error
    then elim (o.error) [ none ↦ "" | some e ↦ e ]
    else "Collection failed."

-- The rest of `_run`; the one outcome is that of the one source. The evidence of a refused file, which
-- goes into `outcomes`, is left out.
unfoldable pub finish : (now : ℕ) → Ending → Snapshot → Snapshot
unfolding phase_of message_of exn_text
finish now (collected (o ∷ os) r _ _) s = record s {
  phase = phase_of o;
  outcomes = some (o ∷ []);
  reconciliation = r;
  message = message_of o;
  finished_at = some now;
}
finish now (collected [] r _ _) s = record s {
  phase = failed;
  message = "IndexError: list index out of range";
  finished_at = some now;
}
finish now (schema_refused why) s = record s {
  phase = failed;
  message = "persistent-state compatibility refused: " ++ why;
  finished_at = some now;
}
finish now (lock_refused e) s = record s {
  phase = already_running;
  message = "Another local collection is already running.";
  finished_at = some now;
}
finish now (raised e) s = record s { phase = failed; message = exn_text e; finished_at = some now }
