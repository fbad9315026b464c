-- ===== src/Store/Runs/Saved.antt =====
-- core/store.py: what `save_run` leaves of the catalogues.
use mathlib.Core.List.{append-nil, append_assoc, map-append}
use mathlib.Core.Option.{some-injective}
use smartwatch_clank.Base.{
  ℕ, suc, ◌≤◌, ◌<◌, String, ◌≡◌, ◌≢◌, refl, ap, ◌∙◌, subst, Bool, true, false, Option, none, some,
  List, [], ◌∷◌, ◌++◌, map, sort_by, keep_if-append, find_first, All, All-map, All-append, nat_eq,
  string_eq, option_eq, beq_refl, Bool-cases, inl, inr, arith,
}
use smartwatch_clank.Base.Result.{Exn, ok, err, Result-cases}
use smartwatch_clank.Models.{Observation}
use smartwatch_clank.Store.{Store, RunRow, ObservationRow}
use smartwatch_clank.Store.Runs.{
  RunRecord, last_run_id, run_row, run_items, insert_observations, insert_discoveries, save_items,
  save_run, counts_as_healthy, last_healthy_run, last_healthy_catalogue, by_identity, catalogue_of,
}

-- The ids of the runs, and the runs that observations refer to, are not above the last id.
pub record IsStored (s : Store) : Type 0 where
  pub run_ids : All (λ r. r.id ≤ last_run_id s.runs) s.runs
  pub item_ids : All (λ o. o.run_id ≤ last_run_id s.runs) s.observations

abbrev pub rows_of : ℕ → String → List Observation → List ObservationRow
rows_of id c = map (λ o. record { run_id = id; collector = c; item = o })

All-rows :
    (id : ℕ) (c : String) (os : List Observation) → All (λ o. o.run_id ≤ id) (rows_of id c os)
All-rows id c [] = tt
All-rows id c (o ∷ os) = (omega arith, All-rows id c os)

insert_observations_ok :
    (id : ℕ) (c : String) (os : List Observation) (rows rows' : List ObservationRow)
    → insert_observations id c os rows ≡ ok rows'
    → rows' ≡ rows ++ rows_of id c os
unfolding insert_observations
insert_observations_ok id c [] rows rows' h = ground (arith, append-nil rows)
insert_observations_ok id c (o ∷ os) rows rows' h =
    let row : ObservationRow = record { run_id = id; collector = c; item = o } in
    insert_observations_ok id c os (rows ++ row ∷ []) rows' (ground arith)
    ∙ append_assoc rows (row ∷ []) (rows_of id c os)

run_items-append :
    (id : ℕ) (xs ys : List ObservationRow)
    → run_items id (xs ++ ys) ≡ run_items id xs ++ run_items id ys
unfolding run_items
run_items-append id xs ys = rw keep_if-append (map-append (λ r. r.item) _ _)

run_items-new : (id : ℕ) (c : String) (os : List Observation) → run_items id (rows_of id c os) ≡ os
unfolding run_items
run_items-new id c [] = refl
run_items-new id c (o ∷ os) = ground (arith, run_items-new id c os, beq_refl id)

run_items-other :
    (id j : ℕ) (c : String) (os : List Observation) → j ≢ id → run_items id (rows_of j c os) ≡ []
unfolding run_items
run_items-other id j c [] h = refl
run_items-other id j c (o ∷ os) h = ground (arith, run_items-other id j c os h)

run_items-old :
    (id n : ℕ) (xs : List ObservationRow)
    → n < id
    → All (λ o. o.run_id ≤ n) xs
    → run_items id xs ≡ []
unfolding run_items
run_items-old id n [] l h = refl
run_items-old id n (x ∷ xs) l h = ground (arith, run_items-old id n xs l h.1)

none_ne_some {ℓ} : {A : Type ℓ} (a : A) → none ≢ some a
none_ne_some a h = cc

ok_ne_err {ℓ} : {A : Type ℓ} (a : A) (e : Exn) → err e ≢ ok a
ok_ne_err a e h = cc

-- What an unhealthy run changes: one row in `runs`.
pub save_run_failed :
    (r : RunRecord) (s : Store)
    → r.healthy ≡ false
    → save_run r s
      ≡ ok (
        suc (last_run_id s.runs),
        record s { runs = run_row (suc (last_run_id s.runs)) r ∷ s.runs },
      )
unfolding save_run
save_run_failed r s h = rw h

-- What a healthy run changes, where it is saved: a row in `runs`, the observations and discoveries of
-- the run behind those that were there, and what the intents do to the outbox.
pub record Saved (r : RunRecord) (s t : Store) (n : ℕ) : Type 0 where
  pub id : n ≡ suc (last_run_id s.runs)
  pub runs : t.runs ≡ run_row n r ∷ s.runs
  pub observations : t.observations ≡ s.observations ++ rows_of n r.collector r.observations
  pub discoveries :
      t.discoveries ≡ (insert_discoveries n r.intent r.discoveries s.discoveries s.notifications).0
  pub notifications :
      t.notifications
      ≡ (insert_discoveries n r.intent r.discoveries s.discoveries s.notifications).1
  pub epochs : t.epochs ≡ s.epochs
  pub events : t.events ≡ s.events

pub save_run_healthy :
    (r : RunRecord) (s t : Store) (n : ℕ)
    → r.healthy ≡ true
    → save_run r s ≡ ok (n, t)
    → Saved r s t n
unfolding save_run save_items
save_run_healthy r s t n h k =
    elim (Result-cases (insert_observations id r.collector r.observations s.observations)) [
      | inl (e, q) ↦ absurd (ok_ne_err _ e (rw (h, q, save_run, save_items) at k))
      | inr (rows, q) ↦
          let f = insert_observations_ok id r.collector r.observations s.observations rows q in
          let k' = rw (h, q, save_run, save_items) at k in
          record {
            id = ground arith;
            runs = ground arith;
            observations = ground arith;
            discoveries = ground arith;
            notifications = ground arith;
            epochs = ground arith;
            events = ground arith;
          }
    ]
  where
    id : ℕ
    id = suc (last_run_id s.runs)

find_first-All {ℓ κ} :
    {A : Type ℓ} (P : A → Type κ) (p : A → Bool) (xs : List A) (x : A)
    → All P xs
    → find_first p xs ≡ some x
    → P x
find_first-All P p [] x h e = absurd (none_ne_some x e)
find_first-All P p (y ∷ xs) x h e = elim (Bool-cases (p y)) [
  | inl q ↦ subst P (some-injective _ _ (rw q at e)) h.0
  | inr q ↦ find_first-All P p xs x h.1 (rw q at e)
]

items_new :
    (r : RunRecord) (s t : Store) (n : ℕ)
    → IsStored s
    → Saved r s t n
    → run_items n t.observations ≡ r.observations
items_new r s t n v saved =
    ap (run_items n) saved.observations
    ∙ run_items-append n s.observations (rows_of n r.collector r.observations)
    ∙ rw (run_items-old n (last_run_id s.runs) s.observations (omega (arith, saved.id)) v.item_ids)
        (run_items-new n r.collector r.observations)

-- The catalogue of a healthy run is the last healthy one of its collector, also within its epoch.
pub Saved-catalogue :
    (r : RunRecord) (s t : Store) (n : ℕ) (epoch : Option String)
    → IsStored s
    → Saved r s t n
    → counts_as_healthy r.collector epoch (run_row n r) ≡ true
    → last_healthy_catalogue t r.collector epoch
      ≡ by_identity (sort_by (λ o. o.identity) r.observations)
unfolding last_healthy_catalogue last_healthy_run catalogue_of
Saved-catalogue r s t n epoch v saved h =
    rw (saved.runs, h)
      (ap (λ os. by_identity (sort_by (λ o. o.identity) os))
        (unfold run_row in items_new r s t n v saved))

-- A new row that is no healthy run of the collector leaves its last healthy catalogue as it was.
pub kept_catalogue :
    (row : RunRow) (s t : Store) (c : String) (os : List Observation) (collector : String)
    (epoch : Option String)
    → IsStored s
    → row.id ≡ suc (last_run_id s.runs)
    → t.runs ≡ row ∷ s.runs
    → t.observations ≡ s.observations ++ rows_of row.id c os
    → counts_as_healthy collector epoch row ≡ false
    → last_healthy_catalogue t collector epoch ≡ last_healthy_catalogue s collector epoch
unfolding last_healthy_catalogue last_healthy_run catalogue_of
kept_catalogue row s t c os collector epoch v i er eo h =
    rw (er, h) (go (find_first (counts_as_healthy collector epoch) s.runs) refl)
  where
    same :
        (x : RunRow)
        → find_first (counts_as_healthy collector epoch) s.runs ≡ some x
        → run_items x.id t.observations ≡ run_items x.id s.observations
    same x q =
        let low =
          find_first-All (λ (y : RunRow). y.id ≤ last_run_id s.runs) _ s.runs x v.run_ids q in
        ap (run_items x.id) eo
        ∙ run_items-append x.id s.observations (rows_of row.id c os)
        ∙ rw (run_items-other x.id row.id c os (omega arith)) (append-nil _)

    go :
        (o : Option RunRow)
        → find_first (counts_as_healthy collector epoch) s.runs ≡ o
        → catalogue_of t.observations o ≡ catalogue_of s.observations o
    go none q = refl
    go (some x) q = ap (λ is. by_identity (sort_by (λ o. o.identity) is)) (same x q)

-- The invariant after a run, healthy or not.
pub IsStored-row :
    (row : RunRow) (s t : Store) (c : String) (os : List Observation)
    → IsStored s
    → row.id ≡ suc (last_run_id s.runs)
    → t.runs ≡ row ∷ s.runs
    → t.observations ≡ s.observations ++ rows_of row.id c os
    → IsStored t
IsStored-row row s t c os v i er eo = record {
  run_ids = rw er (omega arith, All-map _ _ s.runs (λ r h. omega arith) v.run_ids);
  item_ids =
      rw (eo, er)
        (All-append _ s.observations _ (All-map _ _ s.observations (λ r h. omega arith) v.item_ids)
          (All-rows row.id c os));
}
