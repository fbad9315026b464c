-- ===== src/Runner/Machine.antt =====
-- core/runner.py and core/store.py: a machine that keeps, for each collector, the material of its
-- current epoch and the baseline in it, and nothing else; and what it sees of a store.
pub mod Baselines
pub mod Prepared
pub mod Settled
use mathlib.Core.List.{append-nil}
use smartwatch_clank.Base.{
  ℕ, suc, String, ◌≡◌, ◌⊎◌, inl, inr, refl, sym, ap, ◌∙◌, subst, Bool, true, false, ◌&&◌, ◌||◌,
  Option, none, some, List, [], ◌∷◌, ◌++◌, sort_by, find_first, any_of, All, length, Bool-cases,
  if◌then◌else◌, ◌==◌, string_eq, option_eq, arith, eq_iff,
}
use smartwatch_clank.Base.Json.{Fields}
use smartwatch_clank.Base.Result.{Exn, Result, ok, err, Result-cases}
use smartwatch_clank.Platform.{Platform}
use smartwatch_clank.Models.{Observation, RunOutcome}
use smartwatch_clank.Diff.{Catalogue}
use smartwatch_clank.Health.{RunnerConfig}
use smartwatch_clank.Qualification.{QualificationEpoch, identity}
use smartwatch_clank.Registry.{Collector}
use smartwatch_clank.Store.{Store, RunRow, EpochRow}
use smartwatch_clank.Store.Runs.{
  run_row, by_identity, last_run_id, counts_as_healthy, has_healthy_run, last_healthy_catalogue,
  last_healthy_run, catalogue_of,
}
use smartwatch_clank.Store.Runs.Saved.{IsStored, rows_of, kept_catalogue}
use smartwatch_clank.Store.Epochs.{
  Preparation, current_epoch, epoch_exists, epoch_from_row, new_epoch_row, with_epoch,
  prepare_qualification,
}
use smartwatch_clank.Store.Epochs.Resets.{prepare-cases, prepare_qualification_lem, stands_for}
use smartwatch_clank.Runner.{
  Runner, Reading, Attempt, attempt, run_one, run_in_epoch, material, count_before, good_record,
  run_record, good_outcome, bad_outcome,
}
use smartwatch_clank.Runner.Outcomes.{EndedWell, EndedBadly, raised-EndedBadly, saved-EndedWell}
use smartwatch_clank.Runner.Attempts.{attempt_lem}
use smartwatch_clank.Runner.Inserts.{save_run_returns}
use smartwatch_clank.Runner.Silence.{
  ok_inj, unhealthy_never_counts, other_never_counts, good_row_counts, well_catalogue,
  other_collectors_keep, ended,
}
use smartwatch_clank.Runner.Consistent.{
  IsConsistent, has_epoch_of, preparation, run_one-parts, prepare-IsConsistent,
}

-- the last healthy catalogue in an epoch, where the epoch has a healthy run
unfoldable pub baseline_of : Store → String → String → Option Catalogue
baseline_of s collector epoch =
    if has_healthy_run s collector (some epoch)
    then some (last_healthy_catalogue s collector (some epoch))
    else none

pub record Watched : Type 0 where
  pub material : String
  pub baseline : Option Catalogue

abbrev pub watched : String → Option Catalogue → Option Watched
watched m b = some (record { material = m; baseline = b })

-- What the machine sees of a store.
unfoldable pub view : Store → String → Option Watched
unfolding baseline_of
view s collector = elim (current_epoch collector s) [
  | none ↦ none
  | some r ↦
      some
        (record { material = r.material_identity; baseline = baseline_of s collector r.epoch_id })
]

-- The baseline under a material: none before the first run with it.
unfoldable pub baseline_under : String → Option Watched → Option Catalogue
baseline_under m none = none
baseline_under m (some w) = if w.material == m then w.baseline else none

pub record Step : Type 0 where
  pub healthy : Bool
  pub discovery_count : ℕ
  pub baseline : Option Catalogue

unfoldable pub step_of : Option Catalogue → Result Attempt → Step
step_of before (err e) = record { healthy = false; discovery_count = 0; baseline = before }
step_of before (ok a) = record {
  healthy = true;
  discovery_count = length a.discoveries;
  baseline = some (by_identity (sort_by (λ o. o.identity) a.result.observations));
}

abbrev pub items_before : Option Catalogue → Catalogue
items_before none = []
items_before (some d) = d

abbrev pub size_before : Option Catalogue → Option ℕ
size_before none = none
size_before (some d) = some (length d)

-- What the machine does: it attempts the collector against the baseline, takes what was found for the
-- new baseline where that goes well, and keeps the baseline where it does not.
unfoldable pub watch_step :
    Platform → RunnerConfig → Collector → (clock : String → ℕ) → Option Catalogue → Step
watch_step p config c clock before =
    step_of before (attempt p config c (items_before before) (size_before before) clock)
