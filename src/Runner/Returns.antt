-- ===== src/Runner/Returns.antt =====
-- core/runner.py: the runs of an invocation return, where the host's UUIDs are new.
use smartwatch_clank.Base.{
  String, ◌≡◌, inl, inr, refl, ap, ◌∙◌, subst, Bool, false, ◌&&◌, Option, none, some, List, [], ◌∷◌,
  map, any_of, contains, All, Bool-cases, ◌==◌, string_eq, arith,
}
use smartwatch_clank.Base.Json.{Fields}
use smartwatch_clank.Base.Result.{ok}
use smartwatch_clank.Platform.{Platform}
use smartwatch_clank.Models.{RunOutcome}
use smartwatch_clank.Qualification.{QualificationEpoch, new_epoch_id, identity}
use smartwatch_clank.Registry.{Collector}
use smartwatch_clank.Store.{Store, EpochRow, EventRow}
use smartwatch_clank.Store.Epochs.{
  Preparation, current_epoch, epoch_exists, event_exists, new_epoch_row, start_event_row,
  with_epoch, start_epoch, prepare_qualification,
}
use smartwatch_clank.Store.Epochs.Resets.{prepare-cases}
use smartwatch_clank.Runner.{
  Runner, Reading, run_one, run_each, run_in_epoch, has_duplicates, good_outcome, bad_outcome,
}
use smartwatch_clank.Runner.Outcomes.{Recorded, run_in_epoch-Ends}
use smartwatch_clank.Runner.Silence.{ended}
use smartwatch_clank.Runner.Consistent.{preparation, run_one-parts}

-- some event of the collector is of the execution
abbrev pub executed : String → String → List EventRow → Bool
executed collector execution_id =
    any_of (λ v. v.collector == collector && v.execution_id == execution_id)

-- The UUIDs that the host reads for a run of a collector are new to the store.
pub record IsFresh (s : Store) (collector : String) (rd : Reading) : Type 0 where
  pub new_epoch : epoch_exists collector (new_epoch_id collector rd.hex) s.epochs ≡ false
  pub new_execution : executed collector rd.run_uuid s.events ≡ false

executed_none :
    (collector type execution_id : String) (rows : List EventRow)
    → executed collector execution_id rows ≡ false
    → event_exists collector type execution_id rows ≡ false
unfolding event_exists
executed_none collector type execution_id [] h = refl
executed_none collector type execution_id (v ∷ rows) h =
    ground (arith, executed_none collector type execution_id rows)

module _ (p : Platform) (a : Preparation) (s : Store)
    (x : epoch_exists a.collector (new_epoch_id a.collector a.hex) s.epochs ≡ false)
    (y : executed a.collector a.execution_id s.events ≡ false) where
  start_epoch_returns :
      (c : Option EpochRow) → (r : QualificationEpoch × Store) × (start_epoch p a c s ≡ ok r)
  unfolding start_epoch new_epoch_row start_event_row
  start_epoch_returns c =
      let absent =
        executed_none a.collector (elim c [ none ↦ "EPOCH_STARTED" | some _ ↦ "RESET" ])
          a.execution_id s.events y in
      rw (x, absent) (_, refl)

  prepare_returns : (r : QualificationEpoch × Store) × (prepare_qualification p a s ≡ ok r)
  unfolding prepare_qualification
  prepare_returns = go (current_epoch a.collector s) refl
    where
      go :
          (c : Option EpochRow)
          → current_epoch a.collector s ≡ c
          → (r : QualificationEpoch × Store) × (prepare_qualification p a s ≡ ok r)
      go none q = let (r, e) = start_epoch_returns none in (r, rw (q, prepare_qualification) e)
      go (some c) q = elim (Bool-cases (c.material_identity == identity p a.material)) [
        | inl m ↦ rw (q, m, prepare_qualification) (_, refl)
        | inr m ↦
            let (r, e) = start_epoch_returns (some c) in (r, rw (q, m, prepare_qualification) e)
      ]

Recorded-executed :
    (collector epoch other execution_id : String) (old new : List EventRow)
    → (collector == other) ≡ false
    → Recorded collector epoch old new
    → executed other execution_id old ≡ false
    → executed other execution_id new ≡ false
Recorded-executed collector epoch other execution_id old new n (inl e) h = rw e h
Recorded-executed collector epoch other execution_id old new n (inr (v, e, c, _)) h =
    rw e (rw (c, n) h)

module _ (p : Platform) (runner : Runner) (scope : String) (meta : Fields) (c : Collector)
    (rd : Reading) (s t : Store) where
  run_one_returns :
      IsFresh s c.name rd
      → (ot : RunOutcome × Store) × (run_one p runner scope meta c rd s ≡ ok ot)
        × (ot.0.collector ≡ c.name)
  unfolding run_one
  run_one_returns f =
      let (r, e) =
        prepare_returns p (preparation p runner scope meta c rd) s f.new_epoch f.new_execution in
      let (ot, k, ends) = run_in_epoch-Ends p runner scope meta c rd r.0.epoch_id r.1 in
      (
        ot,
        rw (e, k) refl,
        elim ends [
          | inl w ↦ unfold good_outcome in ap (λ (x : RunOutcome). x.collector) w.outcome
          | inr b ↦ unfold bad_outcome in ap (λ (x : RunOutcome). x.collector) b.outcome
        ],
      )

  prepared-IsFresh :
      (e : QualificationEpoch) (k : String) (rd' : Reading)
      → (c.name == k) ≡ false
      → prepare_qualification p (preparation p runner scope meta c rd) s ≡ ok (e, t)
      → IsFresh s k rd'
      → IsFresh t k rd'
  prepared-IsFresh e k rd' n h f =
      elim (prepare-cases p (preparation p runner scope meta c rd) s t e h) [
        | inl (_, _, _, _, u) ↦ rw u f
        | inr (d, _, u, _, _, _) ↦ rw u (record {
          new_epoch =
              unfold with_epoch new_epoch_row epoch_exists in
              rw n (unfold epoch_exists in f.new_epoch);
          new_execution = unfold with_epoch new_epoch_row start_event_row in rw n (f.new_execution);
        })
      ]

  run_in_epoch-IsFresh :
      (epoch : String) (o : RunOutcome) (k : String) (rd' : Reading)
      → (c.name == k) ≡ false
      → run_in_epoch p runner scope meta c rd epoch s ≡ ok (o, t)
      → IsFresh s k rd'
      → IsFresh t k rd'
  run_in_epoch-IsFresh epoch o k rd' n h f = elim (ended p runner scope meta c rd epoch s t o h) [
    | inl w ↦ record {
      new_epoch = rw (w.concluded.epochs ∙ w.saved.epochs) (f.new_epoch);
      new_execution =
          Recorded-executed c.name epoch k rd'.run_uuid s.events t.events n
            (subst (λ vs. Recorded c.name epoch vs t.events) w.saved.events w.events)
            f.new_execution;
    }
    | inr b ↦ record {
      new_epoch = rw (b.epochs) (f.new_epoch);
      new_execution =
          Recorded-executed c.name epoch k rd'.run_uuid s.events t.events n b.events
            f.new_execution;
    }
  ]

-- A run leaves the UUIDs of the other collectors' runs new.
run_one-IsFresh :
    (p : Platform) (runner : Runner) (scope : String) (meta : Fields) (c : Collector) (rd : Reading)
    (s t : Store) (o : RunOutcome) (k : String) (rd' : Reading)
    → (c.name == k) ≡ false
    → run_one p runner scope meta c rd s ≡ ok (o, t)
    → IsFresh s k rd'
    → IsFresh t k rd'
run_one-IsFresh p runner scope meta c rd s t o k rd' n h f =
    let (e, u, a, b) = run_one-parts p runner scope meta c rd s t o h in
    run_in_epoch-IsFresh p runner scope meta c rd u t e.epoch_id o k rd' n b
      (prepared-IsFresh p runner scope meta c rd s u e k rd' n a f)

module _ (p : Platform) (runner : Runner) (scope : String) (meta : Fields)
    (readings : Collector → Reading) where
  rest-IsFresh :
      (c : Collector) (cs : List Collector) (s t : Store) (o : RunOutcome)
      → contains (map (λ (x : Collector). x.name) cs) c.name ≡ false
      → run_one p runner scope meta c (readings c) s ≡ ok (o, t)
      → All (λ (x : Collector). IsFresh s x.name (readings x)) cs
      → All (λ (x : Collector). IsFresh t x.name (readings x)) cs
  rest-IsFresh c [] s t o n h f = tt
  rest-IsFresh c (d ∷ cs) s t o n h f = (
    run_one-IsFresh p runner scope meta c (readings c) s t o d.name (readings d) (ground arith) h
        f.0,
    rest-IsFresh c cs s t o (ground arith) h f.1,
  )

  -- Where the collectors have distinct names and the UUIDs read for each are new to the store, the
  -- runs of an invocation return, whatever the collectors raise: with one outcome for each collector,
  -- in their order.
  pub run_each_returns :
      (cs : List Collector) (s : Store)
      → has_duplicates (map (λ c. c.name) cs) ≡ false
      → All (λ c. IsFresh s c.name (readings c)) cs
      → (r : List RunOutcome × Store) × (run_each p runner scope meta readings cs s ≡ ok r)
        × (map (λ o. o.collector) r.0 ≡ map (λ c. c.name) cs)
  unfolding run_each has_duplicates
  run_each_returns [] s d f = (([], s), refl, refl)
  run_each_returns (c ∷ cs) s d f =
      let ((o, t), e, n) = run_one_returns p runner scope meta c (readings c) s s f.0 in
      let (r, k, m) =
        run_each_returns cs t (ground arith) (rest-IsFresh c cs s t o (ground arith) e f.1) in
      ((o ∷ r.0, r.1), rw (e, k) refl, rw (n, m) refl)
