-- ===== src/Runner/Machine/Settled.antt =====
-- core/runner.py: a run in an epoch as the machine sees it.
use mathlib.Core.List.{append-nil}
use smartwatch_clank.Base.{
  String, ◌≡◌, inl, inr, refl, sym, ap, ◌∙◌, subst, false, some, [], sort_by, ◌==◌, string_eq,
  option_eq,
}
use smartwatch_clank.Base.Json.{Fields}
use smartwatch_clank.Base.Result.{Exn, ok, err, Result-cases}
use smartwatch_clank.Platform.{Platform}
use smartwatch_clank.Models.{RunOutcome}
use smartwatch_clank.Registry.{Collector}
use smartwatch_clank.Store.{Store}
use smartwatch_clank.Store.Runs.{run_row, by_identity, has_healthy_run, last_healthy_catalogue}
use smartwatch_clank.Store.Runs.Saved.{IsStored}
use smartwatch_clank.Runner.{
  Runner, Reading, Attempt, attempt, run_in_epoch, count_before, good_record, run_record,
  good_outcome, bad_outcome,
}
use smartwatch_clank.Runner.Outcomes.{EndedWell, EndedBadly, raised-EndedBadly, saved-EndedWell}
use smartwatch_clank.Runner.Attempts.{attempt_lem}
use smartwatch_clank.Runner.Inserts.{save_run_returns}
use smartwatch_clank.Runner.Silence.{
  ok_inj, unhealthy_never_counts, other_never_counts, good_row_counts, well_catalogue, ended,
}
use smartwatch_clank.Runner.Machine.{
  baseline_of, Step, step_of, items_before, size_before, watch_step,
}
use smartwatch_clank.Runner.Machine.Baselines.{
  items_before-baseline, size_before-baseline, kept_baseline,
}

module _ (p : Platform) (runner : Runner) (scope : String) (meta : Fields) (c : Collector)
    (rd : Reading) (epoch : String) (s t : Store) (o : RunOutcome) (v : IsStored s)
    (h : run_in_epoch p runner scope meta c rd epoch s ≡ ok (o, t)) where
  abbrev pub expected : Step
  expected = watch_step p runner.config c rd.clock (baseline_of s c.name epoch)

  attempted :
      attempt p runner.config c
        (items_before (baseline_of s c.name epoch))
        (size_before (baseline_of s c.name epoch))
        rd.clock
      ≡ attempt p runner.config c
          (last_healthy_catalogue s c.name (some epoch))
          (count_before p runner scope meta c rd epoch s)
          rd.clock
  attempted =
      rw
        (
          items_before-baseline s c.name epoch,
          size_before-baseline p runner scope meta c rd s epoch,
        )
        refl

  abbrev pub Agrees : Step → Type 0
  Agrees w =
      (o.healthy ≡ w.healthy)
      × (o.discovery_count ≡ w.discovery_count)
      × (baseline_of t c.name epoch ≡ w.baseline)

  badly-Agrees :
      (e : Exn)
      → EndedBadly p runner scope meta c rd epoch s o t
      → Agrees (step_of (baseline_of s c.name epoch) (err e))
  unfolding step_of
  badly-Agrees e b = (
    unfold bad_outcome in ap (λ (x : RunOutcome). x.healthy) b.outcome,
    unfold bad_outcome in ap (λ (x : RunOutcome). x.discovery_count) b.outcome,
    kept_baseline b.row s t c.name [] c.name epoch v b.row_id b.runs
        (b.observations ∙ sym (append-nil _))
        (unhealthy_never_counts c.name (some epoch) b.row b.row_unhealthy),
  )

  well_baseline :
      (w : EndedWell p runner scope meta c rd epoch s o t)
      → baseline_of t c.name epoch
        ≡ some (by_identity (sort_by (λ i. i.identity) w.a.result.observations))
  unfolding baseline_of has_healthy_run
  well_baseline w =
      rw
        (
          well_catalogue p runner scope meta c rd epoch s t o v w,
          w.concluded.runs ∙ w.saved.runs,
          good_row_counts p runner scope meta c rd epoch s t o w.n w.a,
        )
        refl

  well-Agrees :
      (w : EndedWell p runner scope meta c rd epoch s o t)
      → Agrees (step_of (baseline_of s c.name epoch) (ok w.a))
  unfolding step_of
  well-Agrees w = (
    unfold good_outcome in ap (λ (x : RunOutcome). x.healthy) w.outcome,
    unfold good_outcome in ap (λ (x : RunOutcome). x.discovery_count) w.outcome,
    well_baseline w,
  )

  raised-Agrees :
      (e : Exn)
      → attempt p runner.config c
          (last_healthy_catalogue s c.name (some epoch))
          (count_before p runner scope meta c rd epoch s)
          rd.clock
        ≡ err e
      → Agrees expected
  unfolding watch_step
  raised-Agrees e q =
      let (ot, k, b) = raised-EndedBadly p runner scope meta c rd epoch e s q in
      rw (attempted ∙ q) (
        badly-Agrees e (
          subst (λ x. EndedBadly p runner scope meta c rd epoch s x.0 x.1)
            (ok_inj ot (o, t) (sym k ∙ h)) b))

  saved-Agrees :
      (a : Attempt)
      → attempt p runner.config c
          (last_healthy_catalogue s c.name (some epoch))
          (count_before p runner scope meta c rd epoch s)
          rd.clock
        ≡ ok a
      → Agrees expected
  unfolding watch_step
  saved-Agrees a q =
      let d = (attempt_lem p runner.config c _ _ rd.clock a q).distinct in
      let (n, u, r) =
        save_run_returns (good_record p runner scope meta c rd epoch a) s v
          (unfold good_record run_record in refl) (unfold good_record run_record in d) in
      let (ot, k, w, f) = saved-EndedWell p runner scope meta c rd epoch a s u n q r in
      let (w', f') =
        subst (λ x. (y : EndedWell p runner scope meta c rd epoch s x.0 x.1) × (y.a ≡ a))
          (ok_inj ot (o, t) (sym k ∙ h)) (w, f) in
      rw (attempted ∙ q)
        (subst (λ x. Agrees (step_of (baseline_of s c.name epoch) (ok x))) f' (well-Agrees w'))

  -- A run in an epoch does what the machine does to the baseline in the epoch.
  pub run-Agrees : Agrees expected
  run-Agrees =
      elim (Result-cases (
        attempt p runner.config c (last_healthy_catalogue s c.name (some epoch))
          (count_before p runner scope meta c rd epoch s) rd.clock)) [
            | inl (e, q) ↦ raised-Agrees e q
            | inr (a, q) ↦ saved-Agrees a q
          ]

  pub epochs_kept : t.epochs ≡ s.epochs
  epochs_kept = elim (ended p runner scope meta c rd epoch s t o h) [
    | inl w ↦ w.concluded.epochs ∙ w.saved.epochs
    | inr b ↦ b.epochs
  ]

  pub other_baseline :
      (k i : String) → (c.name == k) ≡ false → baseline_of t k i ≡ baseline_of s k i
  other_baseline k i n = elim (ended p runner scope meta c rd epoch s t o h) [
    | inl w ↦
        let row = run_row w.n (good_record p runner scope meta c rd epoch w.a) in
        kept_baseline row s t c.name w.a.result.observations k i v (unfold run_row in w.saved.id)
          (w.concluded.runs ∙ w.saved.runs)
          (w.concluded.observations
            ∙ (unfold run_row good_record run_record in w.saved.observations))
          (other_never_counts k (some i) row (unfold run_row good_record run_record in n))
    | inr b ↦
        kept_baseline b.row s t c.name [] k i v b.row_id b.runs
          (b.observations ∙ sym (append-nil _))
          (other_never_counts k (some i) b.row (rw (b.row_collector) n))
  ]
