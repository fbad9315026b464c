-- ===== src/Runner/Machine/Baselines.antt =====
-- core/store.py: the baseline of an epoch, and what leaves it as it was.
use smartwatch_clank.Base.{
  suc, String, ◌≡◌, inl, inr, refl, false, Option, none, some, List, [], ◌∷◌, ◌++◌, find_first,
  any_of, Bool-cases, string_eq, option_eq, arith,
}
use smartwatch_clank.Base.Json.{Fields}
use smartwatch_clank.Platform.{Platform}
use smartwatch_clank.Models.{Observation}
use smartwatch_clank.Registry.{Collector}
use smartwatch_clank.Store.{Store, RunRow}
use smartwatch_clank.Store.Runs.{
  last_run_id, counts_as_healthy, has_healthy_run, last_healthy_catalogue, last_healthy_run,
  catalogue_of,
}
use smartwatch_clank.Store.Runs.Saved.{IsStored, rows_of, kept_catalogue}
use smartwatch_clank.Runner.{Runner, Reading, count_before}
use smartwatch_clank.Runner.Machine.{baseline_of, items_before, size_before}

no_healthy_run :
    (rows : List RunRow) (collector : String) (epoch : Option String)
    → any_of (counts_as_healthy collector epoch) rows ≡ false
    → find_first (counts_as_healthy collector epoch) rows ≡ none
no_healthy_run [] collector epoch h = refl
no_healthy_run (r ∷ rows) collector epoch h = ground (arith, no_healthy_run rows collector epoch)

pub items_before-baseline :
    (s : Store) (collector epoch : String)
    → items_before (baseline_of s collector epoch) ≡ last_healthy_catalogue s collector (some epoch)
unfolding baseline_of has_healthy_run
items_before-baseline s collector epoch =
    elim (Bool-cases (any_of (counts_as_healthy collector (some epoch)) s.runs)) [
      | inl q ↦ rw q refl
      | inr q ↦ rw q (
          unfold last_healthy_catalogue last_healthy_run catalogue_of in
          rw (no_healthy_run s.runs collector (some epoch) q) refl)
    ]

module _ (p : Platform) (runner : Runner) (scope : String) (meta : Fields) (c : Collector)
    (rd : Reading) where
  pub size_before-baseline :
      (s : Store) (epoch : String)
      → size_before (baseline_of s c.name epoch) ≡ count_before p runner scope meta c rd epoch s
  unfolding baseline_of count_before
  size_before-baseline s epoch = elim (Bool-cases (has_healthy_run s c.name (some epoch))) [
    | inl q ↦ rw q refl
    | inr q ↦ rw q refl
  ]

-- A row that is no healthy run of a collector in an epoch leaves its baseline as it was.
pub kept_baseline :
    (row : RunRow) (s t : Store) (c : String) (os : List Observation) (collector epoch : String)
    → IsStored s
    → row.id ≡ suc (last_run_id s.runs)
    → t.runs ≡ row ∷ s.runs
    → t.observations ≡ s.observations ++ rows_of row.id c os
    → counts_as_healthy collector (some epoch) row ≡ false
    → baseline_of t collector epoch ≡ baseline_of s collector epoch
unfolding baseline_of has_healthy_run
kept_baseline row s t c os collector epoch v i er eo h =
    rw (kept_catalogue row s t c os collector (some epoch) v i er eo h, er, h) refl
