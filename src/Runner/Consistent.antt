-- ===== src/Runner/Consistent.antt =====
-- core/runner.py and core/store.py: the tables refer to each other, and every run keeps them so.
use mathlib.Core.List.{append-nil}
use smartwatch_clank.Base.{
  String, ◌≡◌, inl, inr, refl, sym, ◌∙◌, subst, Bool, true, Option, none, some, List, [], ◌∷◌,
  find_first, All, All-map, ◌==◌, string_eq, beq_refl, arith, eq_iff,
}
use smartwatch_clank.Base.Json.{Fields}
use smartwatch_clank.Base.Result.{ok, Result-cases}
use smartwatch_clank.Platform.{Platform}
use smartwatch_clank.Models.{RunOutcome}
use smartwatch_clank.Qualification.{QualificationEpoch}
use smartwatch_clank.Registry.{Collector}
use smartwatch_clank.Store.{Store, RunRow, EventRow, EpochRow}
use smartwatch_clank.Store.Runs.{run_row}
use smartwatch_clank.Store.Runs.Saved.{IsStored, IsStored-row}
use smartwatch_clank.Store.Epochs.{
  Preparation, current_epoch, epoch_exists, epoch_from_row, new_epoch_row, start_event_row,
  with_epoch, prepare_qualification,
}
use smartwatch_clank.Store.Epochs.Resets.{HasEpochs, prepare-cases}
use smartwatch_clank.Runner.{
  Runner, Reading, run_one, run_in_epoch, material, good_record, run_record,
}
use smartwatch_clank.Runner.Silence.{ended}
use smartwatch_clank.Runner.Outcomes.{EndedWell, EndedBadly, Recorded}

-- the epoch of a run, where it has one, is there
unfoldable pub has_epoch_of : List EpochRow → String → Option String → Bool
has_epoch_of rows collector none = true
has_epoch_of rows collector (some epoch) = epoch_exists collector epoch rows

-- No id is above that of the last run, and every run and every event belongs to an epoch that is
-- there.
pub record IsConsistent (s : Store) : Type 0 where
  pub stored : IsStored s
  pub run_epochs :
      All (λ r. has_epoch_of s.epochs r.collector r.qualification_epoch_id ≡ true) s.runs
  pub event_epochs : HasEpochs s

pub epoch_exists-more :
    (collector epoch : String) (e : EpochRow) (rows : List EpochRow)
    → epoch_exists collector epoch rows ≡ true
    → epoch_exists collector epoch (e ∷ rows) ≡ true
unfolding epoch_exists
epoch_exists-more collector epoch e rows h = ground arith

has_epoch_of-more :
    (collector : String) (epoch : Option String) (e : EpochRow) (rows : List EpochRow)
    → has_epoch_of rows collector epoch ≡ true
    → has_epoch_of (e ∷ rows) collector epoch ≡ true
unfolding has_epoch_of
has_epoch_of-more collector none e rows h = refl
has_epoch_of-more collector (some epoch) e rows h = epoch_exists-more collector epoch e rows h

pub epoch_exists-new :
    (e : EpochRow) (rows : List EpochRow) → epoch_exists e.collector e.epoch_id (e ∷ rows) ≡ true
unfolding epoch_exists
epoch_exists-new e rows = rw (beq_refl e.collector) (rw (beq_refl e.epoch_id) refl)

start_event-epoch :
    (e : EpochRow) (c : Option EpochRow) (vs : List EventRow)
    → ((start_event_row e c vs).collector ≡ e.collector)
      × ((start_event_row e c vs).epoch_id ≡ e.epoch_id)
unfolding start_event_row
start_event-epoch e c vs = (refl, refl)

with_epoch-IsConsistent :
    (p : Platform) (a : Preparation) (c : Option EpochRow) (s : Store)
    → IsConsistent s
    → IsConsistent (with_epoch p a c s)
unfolding with_epoch
with_epoch-IsConsistent p a c s v =
    let e = new_epoch_row p a c s.epochs in
    record {
      stored = record { run_ids = v.stored.run_ids; item_ids = v.stored.item_ids };
      run_epochs = All-map _ _ s.runs (λ r h. has_epoch_of-more _ _ e s.epochs h) v.run_epochs;
      event_epochs = (
        unfold start_event_row in epoch_exists-new e s.epochs,
        All-map _ _ s.events (λ r h. epoch_exists-more _ _ e s.epochs h) v.event_epochs,
      );
    }

found-exists :
    (collector : String) (rows : List EpochRow) (r : EpochRow)
    → find_first (λ x. x.collector == collector) rows ≡ some r
    → epoch_exists collector r.epoch_id rows ≡ true
unfolding epoch_exists
found-exists collector [] r h = absurd (cc h)
found-exists collector (x ∷ rows) r h =
    ground (arith, found-exists collector rows r, eq_iff x.epoch_id r.epoch_id)

current-exists :
    (collector : String) (s : Store) (r : EpochRow)
    → current_epoch collector s ≡ some r
    → epoch_exists collector r.epoch_id s.epochs ≡ true
unfolding current_epoch
current-exists collector s r h = found-exists collector s.epochs r h

-- A preparation keeps the invariant, and its epoch is there.
pub prepare-IsConsistent :
    (p : Platform) (a : Preparation) (s t : Store) (e : QualificationEpoch)
    → IsConsistent s
    → prepare_qualification p a s ≡ ok (e, t)
    → IsConsistent t × (epoch_exists a.collector e.epoch_id t.epochs ≡ true)
prepare-IsConsistent p a s t e v h = elim (prepare-cases p a s t e h) [
  | inl (r, q, _, f, u) ↦ rw (u, f) (v, unfold epoch_from_row in current-exists a.collector s r q)
  | inr (c, f, u, _, _, _) ↦
      rw (u, f)
        (
          with_epoch-IsConsistent p a c s v,
          unfold epoch_from_row new_epoch_row with_epoch in
              epoch_exists-new (new_epoch_row p a c s.epochs) s.epochs,
        )
]

module _ (collector epoch : String) (s t : Store) (v : IsConsistent s)
    (x : epoch_exists collector epoch s.epochs ≡ true) where
  Recorded-rows :
      (old new : List EventRow)
      → Recorded collector epoch old new
      → All (λ w. epoch_exists w.collector w.epoch_id s.epochs ≡ true) old
      → All (λ w. epoch_exists w.collector w.epoch_id s.epochs ≡ true) new
  Recorded-rows old new (inl e) h = rw e h
  Recorded-rows old new (inr (w, e, c, i)) h = rw e (rw (c, i) x, h)

  -- A new run and its terminal event, both of an epoch that is there.
  new_run-IsConsistent :
      (row : RunRow)
      → IsStored t
      → t.epochs ≡ s.epochs
      → t.runs ≡ row ∷ s.runs
      → row.collector ≡ collector
      → row.qualification_epoch_id ≡ some epoch
      → Recorded collector epoch s.events t.events
      → IsConsistent t
  new_run-IsConsistent row k es rs c e r = record {
    stored = k;
    run_epochs =
        subst
          (λ es'. All (λ q. has_epoch_of es' q.collector q.qualification_epoch_id ≡ true) t.runs)
          (sym es) (rw rs (rw (c, e) (unfold has_epoch_of in x), v.run_epochs));
    event_epochs =
        subst (λ es'. All (λ w. epoch_exists w.collector w.epoch_id es' ≡ true) t.events) (sym es)
          (Recorded-rows s.events t.events r v.event_epochs);
  }

module _ (p : Platform) (runner : Runner) (scope : String) (meta : Fields) (c : Collector)
    (rd : Reading) where
  module _ (epoch : String) (s t : Store) (o : RunOutcome) (v : IsConsistent s)
      (x : epoch_exists c.name epoch s.epochs ≡ true) where
    well-IsConsistent : EndedWell p runner scope meta c rd epoch s o t → IsConsistent t
    well-IsConsistent w =
        let row = run_row w.n (good_record p runner scope meta c rd epoch w.a) in
        let rs : t.runs ≡ row ∷ s.runs = w.concluded.runs ∙ w.saved.runs in
        new_run-IsConsistent c.name epoch s t v x row
          (IsStored-row row s t c.name w.a.result.observations v.stored
            (unfold run_row in w.saved.id) rs
            (w.concluded.observations
              ∙ (unfold run_row good_record run_record in w.saved.observations)))
          (w.concluded.epochs ∙ w.saved.epochs) rs (unfold run_row good_record run_record in refl)
          (unfold run_row good_record run_record in refl)
          (subst (λ k. Recorded c.name epoch k t.events) w.saved.events w.events)

    badly-IsConsistent : EndedBadly p runner scope meta c rd epoch s o t → IsConsistent t
    badly-IsConsistent b =
        new_run-IsConsistent c.name epoch s t v x b.row
          (IsStored-row b.row s t c.name [] v.stored b.row_id b.runs
            (b.observations ∙ sym (append-nil _)))
          b.epochs b.runs b.row_collector b.row_epoch b.events

    run_in_epoch-IsConsistent :
        run_in_epoch p runner scope meta c rd epoch s ≡ ok (o, t) → IsConsistent t
    run_in_epoch-IsConsistent h = elim (ended p runner scope meta c rd epoch s t o h) [
      | inl w ↦ well-IsConsistent w
      | inr b ↦ badly-IsConsistent b
    ]

  -- the arguments of `prepare_qualification`
  abbrev pub preparation : Preparation
  preparation = record {
    collector = c.name;
    execution_id = rd.run_uuid;
    material = material p runner scope meta c rd;
    provenance = runner.provenance.trigger;
    started_at = rd.started;
    hex = rd.hex;
  }

  -- A run is a preparation, and a run in the epoch that it gives.
  pub run_one-parts :
      (s t : Store) (o : RunOutcome)
      → run_one p runner scope meta c rd s ≡ ok (o, t)
      → (e : QualificationEpoch) × (u : Store) × (prepare_qualification p preparation s ≡ ok (e, u))
        × (run_in_epoch p runner scope meta c rd e.epoch_id u ≡ ok (o, t))
  unfolding run_one
  run_one-parts s t o h = elim (Result-cases (prepare_qualification p preparation s)) [
    | inl (x, e) ↦ absurd (cc (rw e at h))
    | inr (r, e) ↦ (r.0, r.1, e, rw e at h)
  ]

  pub run_one-IsConsistent :
      (s t : Store) (o : RunOutcome)
      → IsConsistent s
      → run_one p runner scope meta c rd s ≡ ok (o, t)
      → IsConsistent t
  run_one-IsConsistent s t o v h =
      let (e, u, a, b) = run_one-parts s t o h in
      let (k, x) = prepare-IsConsistent p preparation s u e v a in
      run_in_epoch-IsConsistent e.epoch_id u t o k x b
