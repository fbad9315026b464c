-- ===== src/Runner/Refine.antt =====
-- core/runner.py: a run is a step of the machine.
use smartwatch_clank.Base.{
  String, ◌≡◌, inl, inr, refl, sym, ap, ◌∙◌, subst, false, Option, none, some, find_first,
  Bool-cases, if◌then◌else◌, ◌==◌, string_eq, option_eq, eq_iff,
}
use smartwatch_clank.Base.Json.{Fields}
use smartwatch_clank.Base.Result.{ok}
use smartwatch_clank.Platform.{Platform}
use smartwatch_clank.Models.{RunOutcome}
use smartwatch_clank.Qualification.{QualificationEpoch, identity}
use smartwatch_clank.Registry.{Collector}
use smartwatch_clank.Store.{Store, EpochRow}
use smartwatch_clank.Store.Runs.{has_healthy_run, last_healthy_catalogue}
use smartwatch_clank.Store.Runs.Saved.{IsStored}
use smartwatch_clank.Store.Epochs.{current_epoch, epoch_from_row, prepare_qualification}
use smartwatch_clank.Store.Epochs.Resets.{prepare_qualification_lem}
use smartwatch_clank.Runner.{Runner, Reading, run_one, run_in_epoch, material}
use smartwatch_clank.Runner.Consistent.{
  IsConsistent, preparation, run_one-parts, prepare-IsConsistent,
}
use smartwatch_clank.Runner.Machine.{baseline_of, watched, view, baseline_under, Step, watch_step}
use smartwatch_clank.Runner.Machine.Prepared.{
  view-epoch, prepared_tables, prepared_baseline, prepared_others,
}
use smartwatch_clank.Runner.Machine.Settled.{Agrees, run-Agrees, epochs_kept, other_baseline}

-- Equal epochs and equal baselines in them look the same.
view_eq :
    (s t : Store) (k : String)
    → current_epoch k t ≡ current_epoch k s
    → ((i : String) → baseline_of t k i ≡ baseline_of s k i)
    → view t k ≡ view s k
unfolding view
view_eq s t k e b = go (current_epoch k s) refl
  where
    go : (c : Option EpochRow) → current_epoch k s ≡ c → view t k ≡ view s k
    go none q = rw (e, q, view) refl
    go (some r) q = view-epoch t k r (e ∙ q) ∙ rw (b r.epoch_id) (sym (view-epoch s k r q))

same_baselines :
    (s u : Store) (k i : String)
    → u.runs ≡ s.runs
    → u.observations ≡ s.observations
    → baseline_of u k i ≡ baseline_of s k i
unfolding baseline_of has_healthy_run last_healthy_catalogue
same_baselines s u k i r o = rw (r, o) refl

current_eq :
    (s t : Store) (k : String) → t.epochs ≡ s.epochs → current_epoch k t ≡ current_epoch k s
unfolding current_epoch
current_eq s t k e = ap (find_first (λ r. r.collector == k)) e

module _ (p : Platform) (runner : Runner) (scope : String) (meta : Fields) (c : Collector)
    (rd : Reading) (s : Store) where
  -- the step of the machine from what it sees of the store
  abbrev pub watched_step : Step
  watched_step =
      watch_step p runner.config c rd.clock
        (baseline_under (identity p (material p runner scope meta c rd)) (view s c.name))

  module _ (t : Store) (o : RunOutcome) where
    module _ (e : QualificationEpoch) (u : Store) (v : IsConsistent s)
        (a : prepare_qualification p (preparation p runner scope meta c rd) s ≡ ok (e, u))
        (b : run_in_epoch p runner scope meta c rd e.epoch_id u ≡ ok (o, t)) where
      prepared : IsStored u
      prepared = (prepare-IsConsistent p (preparation p runner scope meta c rd) s u e v a).0.stored

      part-Agrees : Agrees p runner scope meta c rd e.epoch_id u t o prepared b watched_step
      part-Agrees =
          subst
            (λ d.
              Agrees p runner scope meta c rd e.epoch_id u t o prepared b
                (watch_step p runner.config c rd.clock d))
            (prepared_baseline p (preparation p runner scope meta c rd) s u e v a)
            (run-Agrees p runner scope meta c rd e.epoch_id u t o prepared b)

      same_epochs : (k : String) → current_epoch k t ≡ current_epoch k u
      same_epochs k =
          current_eq u t k (epochs_kept p runner scope meta c rd e.epoch_id u t o prepared b)

      own_view :
          view t c.name
          ≡ watched (identity p (material p runner scope meta c rd)) watched_step.baseline
      own_view =
          let (r, q, f, m) =
            prepare_qualification_lem p (preparation p runner scope meta c rd) s u e a in
          view-epoch t c.name r (same_epochs c.name ∙ q)
          ∙ own_parts r m
              (unfold epoch_from_row in ap (λ (x : QualificationEpoch). x.epoch_id) (sym f))
        where
          own_parts :
              (r : EpochRow)
              → r.material_identity ≡ identity p (material p runner scope meta c rd)
              → r.epoch_id ≡ e.epoch_id
              → watched r.material_identity (baseline_of t c.name r.epoch_id)
                ≡ watched (identity p (material p runner scope meta c rd)) watched_step.baseline
          own_parts r m i = rw (m, i, part-Agrees.2) refl

      other_view : (k : String) → (c.name == k) ≡ false → view t k ≡ view s k
      other_view k n =
          let (rs, os) = prepared_tables p (preparation p runner scope meta c rd) s u e v a in
          view_eq s t k
            (same_epochs k ∙ prepared_others p (preparation p runner scope meta c rd) s u e v a k n)
            (λ i.
              other_baseline p runner scope meta c rd e.epoch_id u t o prepared b k i n
              ∙ same_baselines s u k i rs os)

    -- Where the tables of the store refer to each other as they must, a run that returns is a step of
    -- the abstract machine: its outcome tells the step's verdict and number of discoveries; afterwards
    -- the collector is watched under the run's material with the step's baseline, and the other
    -- collectors are watched as before.
    pub run_one_refines :
        (k : String)
        → IsConsistent s
        → run_one p runner scope meta c rd s ≡ ok (o, t)
        → (o.healthy ≡ watched_step.healthy)
          × (o.discovery_count ≡ watched_step.discovery_count)
          × (view t k ≡ (
              if c.name == k
              then watched (identity p (material p runner scope meta c rd)) watched_step.baseline
              else view s k))
    run_one_refines k v h =
        let (e, u, a, b) = run_one-parts p runner scope meta c rd s t o h in
        let (x, y, _) = part-Agrees e u v a b in
        (
          x,
          y,
          elim (Bool-cases (c.name == k)) [
            | inl q ↦ rw q (ap (view t) (sym ((eq_iff c.name k).0 q)) ∙ own_view e u v a b)
            | inr q ↦ rw q (other_view e u v a b k q)
          ],
        )
