-- ===== src/Runner/Machine/Prepared.antt =====
-- core/store.py: a preparation as the machine sees it.
use smartwatch_clank.Base.{
  String, ◌≡◌, inl, inr, refl, sym, ap, ◌∙◌, Bool, true, false, ◌||◌, Option, none, some, List, [],
  ◌∷◌, any_of, All, ◌==◌, string_eq, option_eq, arith, eq_iff,
}
use smartwatch_clank.Base.Result.{ok}
use smartwatch_clank.Platform.{Platform}
use smartwatch_clank.Qualification.{QualificationEpoch, identity}
use smartwatch_clank.Store.{Store, RunRow, EpochRow}
use smartwatch_clank.Store.Runs.{counts_as_healthy, has_healthy_run}
use smartwatch_clank.Store.Epochs.{
  Preparation, current_epoch, epoch_exists, epoch_from_row, new_epoch_row, with_epoch,
  prepare_qualification,
}
use smartwatch_clank.Store.Epochs.Resets.{prepare-cases, stands_for}
use smartwatch_clank.Runner.Consistent.{IsConsistent, has_epoch_of}
use smartwatch_clank.Runner.Machine.{baseline_of, Watched, view, baseline_under}

both_false : (a b : Bool) → a ≡ false → b ≡ false → (a || b) ≡ false
both_false a b p q = ground arith

uncounted :
    (rows : List EpochRow) (collector epoch : String) (r : RunRow) (o : Option String)
    → r.qualification_epoch_id ≡ o
    → epoch_exists collector epoch rows ≡ false
    → has_epoch_of rows r.collector o ≡ true
    → counts_as_healthy collector (some epoch) r ≡ false
unfolding counts_as_healthy has_epoch_of
uncounted rows collector epoch r none q x k = ground arith
uncounted rows collector epoch r (some e) q x k =
    ground (arith, eq_iff r.collector collector, eq_iff e epoch)

-- No run belongs to an epoch that is not there.
fresh_epoch :
    (rows : List EpochRow) (runs : List RunRow) (collector epoch : String)
    → epoch_exists collector epoch rows ≡ false
    → All (λ r. has_epoch_of rows r.collector r.qualification_epoch_id ≡ true) runs
    → any_of (counts_as_healthy collector (some epoch)) runs ≡ false
fresh_epoch rows [] collector epoch x h = refl
fresh_epoch rows (r ∷ runs) collector epoch x h =
    both_false _ _ (uncounted rows collector epoch r _ refl x h.0)
      (fresh_epoch rows runs collector epoch x h.1)

pub view-epoch :
    (s : Store) (k : String) (r : EpochRow)
    → current_epoch k s ≡ some r
    → view s k
      ≡ some (record { material = r.material_identity; baseline = baseline_of s k r.epoch_id })
unfolding view
view-epoch s k r q = rw (q, view) refl

under : (m : String) (w : Watched) → w.material ≡ m → baseline_under m (some w) ≡ w.baseline
unfolding baseline_under
under m w h = rw ((eq_iff w.material m).1 h) refl

-- Without an epoch that stands for the material there is no baseline.
not_under :
    (m k : String) (s : Store) (c : Option EpochRow)
    → current_epoch k s ≡ c
    → stands_for m c ≡ false
    → baseline_under m (view s k) ≡ none
unfolding view baseline_under
not_under m k s none q h = rw (q, view) refl
not_under m k s (some r) q h = rw (q, view) (rw h refl)

module _ (p : Platform) (a : Preparation) (s u : Store) (e : QualificationEpoch)
    (v : IsConsistent s) (h : prepare_qualification p a s ≡ ok (e, u)) where
  -- What a preparation does to the tables that catalogues are read from.
  pub prepared_tables : (u.runs ≡ s.runs) × (u.observations ≡ s.observations)
  prepared_tables = elim (prepare-cases p a s u e h) [
    | inl (_, _, _, _, q) ↦ rw q (refl, refl)
    | inr (_, _, q, _, _, _) ↦ rw q (unfold with_epoch in (refl, refl))
  ]

  -- The baseline in the prepared epoch is the baseline under the material.
  pub prepared_baseline :
      baseline_of u a.collector e.epoch_id
      ≡ baseline_under (identity p a.material) (view s a.collector)
  prepared_baseline = elim (prepare-cases p a s u e h) [
    | inl (r, q, m, f, t) ↦
        rw (t, f)
          (unfold epoch_from_row in
            sym (ap (baseline_under _) (view-epoch s a.collector r q) ∙ under _ _ m))
    | inr (c, f, t, x, q, m) ↦
        rw (t, f)
          (unfold epoch_from_row baseline_of has_healthy_run with_epoch new_epoch_row in
            rw (fresh_epoch s.epochs s.runs a.collector _ (unfold new_epoch_row in x) v.run_epochs)
              (sym (not_under _ a.collector s c q m)))
  ]

  pub prepared_others :
      (k : String) → (a.collector == k) ≡ false → current_epoch k u ≡ current_epoch k s
  unfolding current_epoch
  prepared_others k n = elim (prepare-cases p a s u e h) [
    | inl (_, _, _, _, q) ↦ rw q refl
    | inr (c, _, q, _, _, _) ↦ rw q (unfold with_epoch new_epoch_row in rw n refl)
  ]
