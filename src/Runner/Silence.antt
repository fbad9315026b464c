-- ===== src/Runner/Silence.antt =====
-- core/runner.py: what a run keeps, what it replaces, and when it is silent.
use mathlib.Core.List.{append-nil}
use smartwatch_clank.Base.{
  ℕ, String, ◌≡◌, ◌⊎◌, inl, inr, refl, sym, ap, ◌∙◌, subst, Bool, true, false, Option, none, some,
  List, [], ◌∷◌, length, sort_by, lookup, NodupKeys, if◌then◌else◌, ◌==◌, string_eq, option_eq,
  beq_refl, arith,
}
use smartwatch_clank.Base.Json.{Fields}
use smartwatch_clank.Base.Result.{ok}
use smartwatch_clank.Platform.{Platform}
use smartwatch_clank.Models.{RunOutcome, CollectorResult, Discovery}
use smartwatch_clank.Diff.Exact.{IsKeyed}
use smartwatch_clank.Diff.Kinds.{Unchanged, diff_catalogues-Unchanged}
use smartwatch_clank.Registry.{Collector}
use smartwatch_clank.Store.{Store, RunRow, ObservationRow, DiscoveryRow, Notification}
use smartwatch_clank.Store.Runs.{
  run_row, by_identity, last_healthy_catalogue, catalogue_of, has_healthy_run, insert_discoveries,
  counts_as_healthy,
}
use smartwatch_clank.Store.Runs.Catalogues.{by_identity-IsKeyed, by_identity-NodupKeys}
use smartwatch_clank.Store.Runs.Saved.{IsStored, Saved-catalogue, kept_catalogue}
use smartwatch_clank.Runner.{
  Runner, Reading, Attempt, run_in_epoch, good_record, run_record, good_outcome, bad_outcome,
  count_before, is_none,
}
use smartwatch_clank.Runner.Outcomes.{EndedWell, EndedBadly, run_in_epoch-Ends}
use smartwatch_clank.Runner.Attempts.{attempt_lem}

pub ok_inj {ℓ} : {A : Type ℓ} (a b : A) → ok a ≡ ok b → a ≡ b
ok_inj a b h = cc

pub unhealthy_never_counts :
    (k : String) (e : Option String) (row : RunRow)
    → row.healthy ≡ false
    → counts_as_healthy k e row ≡ false
unfolding counts_as_healthy
unhealthy_never_counts k none row h = ground arith
unhealthy_never_counts k (some e) row h = ground arith

pub other_never_counts :
    (k : String) (e : Option String) (row : RunRow)
    → (row.collector == k) ≡ false
    → counts_as_healthy k e row ≡ false
unfolding counts_as_healthy
other_never_counts k none row h = ground arith
other_never_counts k (some e) row h = ground arith

-- The catalogue is read from two tables.
pub catalogue_eq :
    (s t : Store) (k : String) (e : Option String)
    → t.runs ≡ s.runs
    → t.observations ≡ s.observations
    → last_healthy_catalogue t k e ≡ last_healthy_catalogue s k e
unfolding last_healthy_catalogue
catalogue_eq s t k e r o = cc

insert_nothing :
    (n : ℕ) (i : Option (Discovery → ℕ → List Notification → List Notification))
    (ds : List Discovery) (rows : List DiscoveryRow) (outbox : List Notification)
    → ds ≡ []
    → insert_discoveries n i ds rows outbox ≡ (rows, outbox)
unfolding insert_discoveries
insert_nothing n i [] rows outbox e = refl
insert_nothing n i (d ∷ ds) rows outbox e = absurd (cc e)

either_nil {ℓ} : {A : Type ℓ} (b : Bool) (xs : List A) → xs ≡ [] → (if b then [] else xs) ≡ []
either_nil true xs e = refl
either_nil false xs e = e

catalogue_of-IsKeyed : (os : List ObservationRow) (r : Option RunRow) → IsKeyed (catalogue_of os r)
unfolding catalogue_of
catalogue_of-IsKeyed os none = tt
catalogue_of-IsKeyed os (some r) = by_identity-IsKeyed _

catalogue_of-NodupKeys :
    (os : List ObservationRow) (r : Option RunRow) → NodupKeys (catalogue_of os r)
unfolding catalogue_of
catalogue_of-NodupKeys os none = tt
catalogue_of-NodupKeys os (some r) = by_identity-NodupKeys _

last-IsKeyed : (s : Store) (k : String) (e : Option String) → IsKeyed (last_healthy_catalogue s k e)
unfolding last_healthy_catalogue
last-IsKeyed s k e = catalogue_of-IsKeyed _ _

last-NodupKeys :
    (s : Store) (k : String) (e : Option String) → NodupKeys (last_healthy_catalogue s k e)
unfolding last_healthy_catalogue
last-NodupKeys s k e = catalogue_of-NodupKeys _ _

module _ (p : Platform) (runner : Runner) (scope : String) (meta : Fields) (c : Collector)
    (rd : Reading) (epoch : String) (s t : Store) (o : RunOutcome) where
  pub ended :
      run_in_epoch p runner scope meta c rd epoch s ≡ ok (o, t)
      → EndedWell p runner scope meta c rd epoch s o t
        ⊎ EndedBadly p runner scope meta c rd epoch s o t
  ended h =
      let (ot, e, ends) = run_in_epoch-Ends p runner scope meta c rd epoch s in
      subst
        (λ x.
          EndedWell p runner scope meta c rd epoch s x.0 x.1
          ⊎ EndedBadly p runner scope meta c rd epoch s x.0 x.1)
        (ok_inj ot (o, t) (sym e ∙ h)) ends

  bad_when_unhealthy :
      run_in_epoch p runner scope meta c rd epoch s ≡ ok (o, t)
      → o.healthy ≡ false
      → EndedBadly p runner scope meta c rd epoch s o t
  bad_when_unhealthy h u = elim (ended h) [
    | inl w ↦ absurd (unfold good_outcome in cc (ap (λ (x : RunOutcome). x.healthy) w.outcome))
    | inr b ↦ b
  ]

  good_when_healthy :
      run_in_epoch p runner scope meta c rd epoch s ≡ ok (o, t)
      → o.healthy ≡ true
      → EndedWell p runner scope meta c rd epoch s o t
  good_when_healthy h u = elim (ended h) [
    | inl w ↦ w
    | inr b ↦ absurd (unfold bad_outcome in cc (ap (λ (x : RunOutcome). x.healthy) b.outcome))
  ]

  -- Where the store has no run and no observation above the id of its last run, a run that ends
  -- unhealthy leaves the observations, the discoveries, the outbox and every last healthy catalogue
  -- as they were, and reports no discovery.
  pub failed_run_keeps :
      IsStored s
      → run_in_epoch p runner scope meta c rd epoch s ≡ ok (o, t)
      → o.healthy ≡ false
      → (t.observations ≡ s.observations)
        × (t.discoveries ≡ s.discoveries)
        × (t.notifications ≡ s.notifications)
        × (o.discovery_count ≡ 0)
        × ((k : String) (e : Option String)
            → last_healthy_catalogue t k e ≡ last_healthy_catalogue s k e)
  failed_run_keeps v h u =
      let b = bad_when_unhealthy h u in
      (
        b.observations,
        b.discoveries,
        b.notifications,
        unfold bad_outcome in ap (λ (x : RunOutcome). x.discovery_count) b.outcome,
        λ k e.
            kept_catalogue b.row s t c.name [] k e v b.row_id b.runs
              (b.observations ∙ sym (append-nil _))
              (unhealthy_never_counts k e b.row b.row_unhealthy),
      )

  pub good_row_counts :
      (n : ℕ) (a : Attempt)
      → counts_as_healthy c.name
          (some epoch)
          (run_row n (good_record p runner scope meta c rd epoch a))
        ≡ true
  unfolding counts_as_healthy run_row good_record run_record
  good_row_counts n a = rw (beq_refl c.name, beq_refl epoch)

  -- The last healthy catalogue after a run that ended well.
  pub well_catalogue :
      IsStored s
      → (w : EndedWell p runner scope meta c rd epoch s o t)
      → last_healthy_catalogue t c.name (some epoch)
        ≡ by_identity (sort_by (λ i. i.identity) w.a.result.observations)
  well_catalogue v w =
      catalogue_eq w.u t c.name (some epoch) w.concluded.runs w.concluded.observations
      ∙ unfold good_record run_record in
        Saved-catalogue (good_record p runner scope meta c rd epoch w.a) s w.u w.n (some epoch) v
          w.saved (good_row_counts w.n w.a)

  -- Where the store has no run and no observation above the id of its last run, the last healthy
  -- catalogue of a collector in its epoch is, after a run that ends healthy, what the collector has
  -- just returned, by identity; and the outcome counts it.
  pub healthy_run_replaces :
      IsStored s
      → run_in_epoch p runner scope meta c rd epoch s ≡ ok (o, t)
      → o.healthy ≡ true
      → (result : CollectorResult) × (c.result ≡ ok result)
        × (o.observation_count ≡ length result.observations)
        × (last_healthy_catalogue t c.name (some epoch)
            ≡ by_identity (sort_by (λ i. i.identity) result.observations))
  healthy_run_replaces v h u =
      let w = good_when_healthy h u in
      let a = attempt_lem p runner.config c _ _ rd.clock w.a w.attempted in
      (
        w.a.result,
        a.collected,
        unfold good_outcome in ap (λ (x : RunOutcome). x.observation_count) w.outcome,
        well_catalogue v w,
      )

  -- Where the store has no run and no observation above the id of its last run, a run leaves the
  -- last healthy catalogues of the collectors of other names as they were, however it ends.
  pub other_collectors_keep :
      (k : String) (e : Option String)
      → IsStored s
      → run_in_epoch p runner scope meta c rd epoch s ≡ ok (o, t)
      → (c.name == k) ≡ false
      → last_healthy_catalogue t k e ≡ last_healthy_catalogue s k e
  other_collectors_keep k e v h n = elim (ended h) [
    | inl w ↦
        let row = run_row w.n (good_record p runner scope meta c rd epoch w.a) in
        catalogue_eq w.u t k e w.concluded.runs w.concluded.observations
        ∙ kept_catalogue row s w.u c.name w.a.result.observations k e v
            (unfold run_row in w.saved.id) (w.saved.runs ∙ (unfold good_record run_record in refl))
            (unfold run_row good_record run_record in w.saved.observations)
            (other_never_counts k e row (unfold run_row good_record run_record in n))
    | inr b ↦
        kept_catalogue b.row s t c.name [] k e v b.row_id b.runs
          (b.observations ∙ sym (append-nil _)) (unhealthy_never_counts k e b.row b.row_unhealthy)
  ]

  no_baseline :
      (ds : List Discovery)
      → has_healthy_run s c.name (some epoch) ≡ false
      → (if is_none (count_before p runner scope meta c rd epoch s) then [] else ds) ≡ []
  unfolding count_before
  no_baseline ds first = rw first

  silent :
      (w : EndedWell p runner scope meta c rd epoch s o t)
      → w.a.discoveries ≡ []
      → (o.discovery_count ≡ 0)
        × (t.discoveries ≡ s.discoveries)
        × (t.notifications ≡ s.notifications)
  silent w e =
      let found =
        insert_nothing w.n (runner.notification_intent_factory c) _ s.discoveries s.notifications
          e in
      (
        ap (λ (x : RunOutcome). x.discovery_count) w.outcome ∙ (unfold good_outcome in ap length e),
        w.concluded.discoveries
            ∙ w.saved.discoveries
            ∙ (unfold good_record run_record in ap (λ f. f.0) found),
        w.concluded.notifications
            ∙ w.saved.notifications
            ∙ (unfold good_record run_record in ap (λ f. f.1) found),
      )

  -- A run is silent while its epoch has no healthy run, however it ends: it reports no discovery and
  -- leaves the discoveries and the outbox as they were.
  pub first_run_silent :
      run_in_epoch p runner scope meta c rd epoch s ≡ ok (o, t)
      → has_healthy_run s c.name (some epoch) ≡ false
      → (o.discovery_count ≡ 0)
        × (t.discoveries ≡ s.discoveries)
        × (t.notifications ≡ s.notifications)
  first_run_silent h first = elim (ended h) [
    | inl w ↦ silent w (
        (attempt_lem p runner.config c _ _ rd.clock w.a w.attempted).discoveries
        ∙ no_baseline _ first)
    | inr b ↦ (
      unfold bad_outcome in ap (λ (x : RunOutcome). x.discovery_count) b.outcome,
      b.discoveries,
      b.notifications,
    )
  ]

  -- A run whose collector returns the evidence of the last healthy catalogue of its epoch is silent,
  -- whatever the order of the items and the times of observation.
  pub Unchanged-run_silent :
      (result : CollectorResult)
      → run_in_epoch p runner scope meta c rd epoch s ≡ ok (o, t)
      → c.result ≡ ok result
      → ((k : String)
          → Unchanged
              (lookup k (last_healthy_catalogue s c.name (some epoch)))
              (lookup k (by_identity result.observations)))
      → (o.discovery_count ≡ 0)
        × (t.discoveries ≡ s.discoveries)
        × (t.notifications ≡ s.notifications)
  Unchanged-run_silent result h e same = elim (ended h) [
    | inl w ↦
        let a = attempt_lem p runner.config c _ _ rd.clock w.a w.attempted in
        let r : result ≡ w.a.result = ok_inj _ _ (sym e ∙ a.collected) in
        silent w (
          a.discoveries
          ∙ either_nil _ _ (
              diff_catalogues-Unchanged rd.clock _ _ (last-NodupKeys s c.name (some epoch))
                (by_identity-NodupKeys _) (last-IsKeyed s c.name (some epoch))
                (by_identity-IsKeyed _)
                (subst
                  (λ (x : CollectorResult).
                    (k : String)
                    → Unchanged (lookup k (last_healthy_catalogue s c.name (some epoch)))
                        (lookup k (by_identity x.observations)))
                  r same)))
    | inr b ↦ (
      unfold bad_outcome in ap (λ (x : RunOutcome). x.discovery_count) b.outcome,
      b.discoveries,
      b.notifications,
    )
  ]
