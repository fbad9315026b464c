-- ===== src/Runner/Outcomes.antt =====
-- core/runner.py: the two ways in which a run ends, and that it always ends in one of them.
use smartwatch_clank.Base.{
  ℕ, suc, String, ◌≡◌, ◌⊎◌, inl, inr, refl, Bool, true, false, Option, some, List, ◌∷◌, Bool-cases,
  arith,
}
use smartwatch_clank.Base.Json.{Fields}
use smartwatch_clank.Base.Result.{Exn, Result, ok, err, recover, Result-cases}
use smartwatch_clank.Platform.{Platform}
use smartwatch_clank.Models.{RunOutcome, HealthRecord}
use smartwatch_clank.Registry.{Collector}
use smartwatch_clank.Store.{Store, RunRow, EventRow}
use smartwatch_clank.Store.Runs.{
  run_row, last_run_id, save_run, save_health, last_healthy_catalogue,
}
use smartwatch_clank.Store.Runs.Saved.{Saved, save_run_failed, save_run_healthy}
use smartwatch_clank.Store.Epochs.{record_qualification_terminal, event_exists, terminal_row}
use smartwatch_clank.Runner.{
  Runner, Reading, Attempt, attempt, run_record, conclude, settle_ok, settle_failed, count_before,
  run_in_epoch, good_outcome, bad_outcome, good_record, bad_record, health_of,
}

-- The tables that hold catalogues, discoveries, the outbox and the epochs agree.
pub record SameTables (s t : Store) : Type 0 where
  pub runs : t.runs ≡ s.runs
  pub observations : t.observations ≡ s.observations
  pub discoveries : t.discoveries ≡ s.discoveries
  pub notifications : t.notifications ≡ s.notifications
  pub epochs : t.epochs ≡ s.epochs

-- The new events are the old ones, or they have one more of a collector's epoch, which is terminal.
abbrev pub Recorded : String → String → List EventRow → List EventRow → Type 0
Recorded collector epoch old new =
    (new ≡ old)
    ⊎ ((v : EventRow) × (new ≡ v ∷ old) × (v.collector ≡ collector) × (v.epoch_id ≡ epoch))

module _ (p : Platform) (runner : Runner) (scope : String) (meta : Fields) (c : Collector)
    (rd : Reading) where
  pub conclude-Recorded :
      (epoch : String) (healthy : Bool) (h : HealthRecord) (s : Store)
      → Recorded c.name epoch s.events (conclude p runner scope meta c rd epoch healthy h s).events
  unfolding conclude save_health record_qualification_terminal
  conclude-Recorded epoch healthy h s =
      elim (Bool-cases (event_exists c.name "TERMINAL" rd.run_uuid s.events)) [
        | inl e ↦ rw e (inl refl)
        | inr e ↦ rw e (inr (_, refl, unfold terminal_row in refl, unfold terminal_row in refl))
      ]

  pub conclude_lem :
      (epoch : String) (healthy : Bool) (h : HealthRecord) (s : Store)
      → SameTables s (conclude p runner scope meta c rd epoch healthy h s)
  unfolding conclude save_health record_qualification_terminal
  conclude_lem epoch healthy h s = ground arith

  -- A run that ended well.
  pub record EndedWell (epoch : String) (s : Store) (o : RunOutcome) (t : Store) : Type 0 where
    pub a : Attempt
    pub n : ℕ
    pub u : Store
    pub attempted :
        attempt p runner.config c
          (last_healthy_catalogue s c.name (some epoch))
          (count_before p runner scope meta c rd epoch s)
          rd.clock
        ≡ ok a
    pub saved : Saved (good_record p runner scope meta c rd epoch a) s u n
    pub concluded : SameTables u t
    pub events : Recorded c.name epoch u.events t.events
    pub outcome : o ≡ good_outcome p runner scope meta c rd a

  -- A run that failed.
  pub record EndedBadly (epoch : String) (s : Store) (o : RunOutcome) (t : Store) : Type 0 where
    pub exn : Exn
    pub row : RunRow
    pub row_id : row.id ≡ suc (last_run_id s.runs)
    pub row_unhealthy : row.healthy ≡ false
    pub row_collector : row.collector ≡ c.name
    pub row_epoch : row.qualification_epoch_id ≡ some epoch
    pub runs : t.runs ≡ row ∷ s.runs
    pub observations : t.observations ≡ s.observations
    pub discoveries : t.discoveries ≡ s.discoveries
    pub notifications : t.notifications ≡ s.notifications
    pub epochs : t.epochs ≡ s.epochs
    pub events : Recorded c.name epoch s.events t.events
    pub outcome : o ≡ bad_outcome p runner scope meta c rd exn

  failed :
      (epoch : String) (count : Option ℕ) (exn : Exn) (s : Store)
      → (ot : RunOutcome × Store) × (settle_failed p runner scope meta c rd epoch count exn s
          ≡ ok ot)
        × EndedBadly epoch s ot.0 ot.1
  failed epoch count exn s =
      let r = bad_record p runner scope meta c rd epoch exn in
      let row = run_row (suc (last_run_id s.runs)) r in
      let o = bad_outcome p runner scope meta c rd exn in
      let h = health_of p runner scope meta c rd count o in
      let u : Store = record s { runs = row ∷ s.runs } in
      let same = conclude_lem epoch false h u in
      (
        (o, conclude p runner scope meta c rd epoch false h u),
        unfold settle_failed in rw (save_run_failed r s (unfold bad_record run_record in refl)),
        record {
          exn = exn;
          row = row;
          row_id = unfold run_row in refl;
          row_unhealthy = unfold run_row bad_record run_record in refl;
          row_collector = unfold run_row bad_record run_record in refl;
          row_epoch = unfold run_row bad_record run_record in refl;
          runs = same.runs;
          observations = same.observations;
          discoveries = same.discoveries;
          notifications = same.notifications;
          epochs = same.epochs;
          events = conclude-Recorded epoch false h u;
          outcome = refl;
        },
      )

  abbrev Ends : String → Store → Result (RunOutcome × Store) → Type 0
  Ends epoch s m =
      (ot : RunOutcome × Store) × (m ≡ ok ot)
      × (EndedWell epoch s ot.0 ot.1 ⊎ EndedBadly epoch s ot.0 ot.1)

  failed-Ends :
      (epoch : String) (count : Option ℕ) (exn : Exn) (s : Store)
      → Ends epoch s (settle_failed p runner scope meta c rd epoch count exn s)
  failed-Ends epoch count exn s = let (ot, e, bad) = failed epoch count exn s in (ot, e, inr bad)

  abbrev Well : String → Attempt → Store → Result (RunOutcome × Store) → Type 0
  Well epoch a s m =
      (ot : RunOutcome × Store) × (m ≡ ok ot) × (w : EndedWell epoch s ot.0 ot.1) × (w.a ≡ a)

  saved-Well :
      (epoch : String) (a : Attempt) (s u : Store) (n : ℕ)
      → attempt p runner.config c
          (last_healthy_catalogue s c.name (some epoch))
          (count_before p runner scope meta c rd epoch s)
          rd.clock
        ≡ ok a
      → save_run (good_record p runner scope meta c rd epoch a) s ≡ ok (n, u)
      → Well epoch a s (
          settle_ok p runner scope meta c rd epoch
            (count_before p runner scope meta c rd epoch s)
            a
            s)
  unfolding settle_ok
  saved-Well epoch a s u n h e =
      let o = good_outcome p runner scope meta c rd a in
      let k =
        health_of p runner scope meta c rd (count_before p runner scope meta c rd epoch s) o in
      (
        (o, conclude p runner scope meta c rd epoch true k u),
        rw e refl,
        record {
          a = a;
          n = n;
          u = u;
          attempted = h;
          saved = save_run_healthy _ s u n (unfold good_record run_record in refl) e;
          concluded = conclude_lem epoch true k u;
          events = conclude-Recorded epoch true k u;
          outcome = refl;
        },
        refl,
      )

  saved-Ends :
      (epoch : String) (a : Attempt) (s : Store)
      → attempt p runner.config c
          (last_healthy_catalogue s c.name (some epoch))
          (count_before p runner scope meta c rd epoch s)
          rd.clock
        ≡ ok a
      → (m : Result (ℕ × Store)) → save_run (good_record p runner scope meta c rd epoch a) s ≡ m
      → Ends epoch s (
          recover
            (settle_ok p runner scope meta c rd epoch
              (count_before p runner scope meta c rd epoch s)
              a
              s)
            (λ exn.
              settle_failed p runner scope meta c rd epoch
                (count_before p runner scope meta c rd epoch s)
                exn
                s))
  saved-Ends epoch a s h (err exn) e = unfold settle_ok in rw e (failed-Ends epoch _ exn s)
  saved-Ends epoch a s h (ok (n, u)) e =
      let (ot, q, w, _) = saved-Well epoch a s u n h e in rw q (ot, refl, inl w)

  -- A run whose attempt raises ends badly.
  pub raised-EndedBadly :
      (epoch : String) (exn : Exn) (s : Store)
      → attempt p runner.config c
          (last_healthy_catalogue s c.name (some epoch))
          (count_before p runner scope meta c rd epoch s)
          rd.clock
        ≡ err exn
      → (ot : RunOutcome × Store) × (run_in_epoch p runner scope meta c rd epoch s ≡ ok ot)
        × EndedBadly epoch s ot.0 ot.1
  unfolding run_in_epoch
  raised-EndedBadly epoch exn s e = rw e (failed epoch _ exn s)

  -- A run whose attempt raises nothing ends well, where its rows go in.
  pub saved-EndedWell :
      (epoch : String) (a : Attempt) (s u : Store) (n : ℕ)
      → attempt p runner.config c
          (last_healthy_catalogue s c.name (some epoch))
          (count_before p runner scope meta c rd epoch s)
          rd.clock
        ≡ ok a
      → save_run (good_record p runner scope meta c rd epoch a) s ≡ ok (n, u)
      → Well epoch a s (run_in_epoch p runner scope meta c rd epoch s)
  unfolding run_in_epoch
  saved-EndedWell epoch a s u n h e =
      let (ot, q, w, f) = saved-Well epoch a s u n h e in rw (h, q) (ot, refl, w, f)

  -- A run always ends, and in one of the two ways: no exception of the collector, of the checks or of
  -- the transaction leaves it.
  pub run_in_epoch-Ends :
      (epoch : String) (s : Store) → Ends epoch s (run_in_epoch p runner scope meta c rd epoch s)
  unfolding run_in_epoch
  run_in_epoch-Ends epoch s =
      elim (Result-cases (
        attempt p runner.config c (last_healthy_catalogue s c.name (some epoch))
          (count_before p runner scope meta c rd epoch s) rd.clock)) [
            | inl (exn, e) ↦ rw e (failed-Ends epoch _ exn s)
            | inr (a, e) ↦ rw e (saved-Ends epoch a s e _ refl)
          ]
