-- ===== src/Runner/Inserts.antt =====
-- core/store.py: the rows of a run go in where its observations have distinct identities.
use smartwatch_clank.Base.{
  ℕ, suc, ◌≤◌, ◌<◌, String, ◌≡◌, refl, Bool, true, false, ◌&&◌, ◌||◌, List, [], ◌∷◌, ◌++◌, map,
  any_of, contains, All, ◌==◌, nat_eq, string_eq, nat_beq_iff, arith, eq_iff,
}
use smartwatch_clank.Base.Result.{ok}
use smartwatch_clank.Models.{Observation}
use smartwatch_clank.Store.{Store, ObservationRow}
use smartwatch_clank.Store.Runs.{RunRecord, last_run_id, insert_observations, save_items, save_run}
use smartwatch_clank.Store.Runs.Saved.{IsStored}
use smartwatch_clank.Runner.{has_duplicates}

-- No row of the run has an identity that is still to come.
abbrev Free : ℕ → List Observation → List ObservationRow → Type 0
Free id [] rows = Unit
Free id (o ∷ os) rows =
    (any_of (λ r. r.run_id == id && r.item.identity == o.identity) rows ≡ false) × Free id os rows

any_of-append {ℓ} :
    {A : Type ℓ} (p : A → Bool) (xs ys : List A)
    → any_of p (xs ++ ys) ≡ (any_of p xs || any_of p ys)
any_of-append p [] ys = refl
any_of-append p (x ∷ xs) ys = ground (arith, any_of-append p xs ys)

Free-append :
    (id : ℕ) (c : String) (o : Observation) (os : List Observation) (rows : List ObservationRow)
    → contains (map (λ i. i.identity) os) o.identity ≡ false
    → Free id os rows
    → Free id os (rows ++ record { run_id = id; collector = c; item = o } ∷ [])
Free-append id c o [] rows h f = tt
Free-append id c o (q ∷ os) rows h f =
    let row : ObservationRow = record { run_id = id; collector = c; item = o } in
    let split =
      any_of-append (λ r. r.run_id == id && r.item.identity == q.identity) rows (row ∷ []) in
    (
      ground (arith, split, f.0, eq_iff o.identity q.identity, eq_iff q.identity o.identity),
      Free-append id c o os rows (ground arith) f.1,
    )

pub insert_observations_returns :
    (id : ℕ) (c : String) (os : List Observation) (rows : List ObservationRow)
    → has_duplicates (map (λ i. i.identity) os) ≡ false
    → Free id os rows
    → (rows' : List ObservationRow) × (insert_observations id c os rows ≡ ok rows')
unfolding insert_observations has_duplicates
insert_observations_returns id c [] rows h f = (rows, refl)
insert_observations_returns id c (o ∷ os) rows h f =
    let later =
      insert_observations_returns id c os
        (rows ++ record { run_id = id; collector = c; item = o } ∷ []) (ground arith)
        (Free-append id c o os rows (ground arith) f.1) in
    (later.0, rw (f.0) (later.1))

All-Free :
    (n id : ℕ) (os : List Observation) (rows : List ObservationRow)
    → n < id
    → All (λ r. r.run_id ≤ n) rows
    → Free id os rows
All-Free n id [] rows l h = tt
All-Free n id (o ∷ os) rows l h = (absent rows h, All-Free n id os rows l h)
  where
    absent :
        (rs : List ObservationRow)
        → All (λ r. r.run_id ≤ n) rs
        → any_of (λ r. r.run_id == id && r.item.identity == o.identity) rs ≡ false
    absent [] k = refl
    absent (r ∷ rs) k = ground (arith, absent rs k.1, nat_beq_iff r.run_id id, k.0)

-- A run whose observations have distinct identities is saved, where no row is above the last run.
pub save_run_returns :
    (r : RunRecord) (s : Store)
    → IsStored s
    → r.healthy ≡ true
    → has_duplicates (map (λ i. i.identity) r.observations) ≡ false
    → (n : ℕ) × (t : Store) × (save_run r s ≡ ok (n, t))
unfolding save_run save_items
save_run_returns r s v h d =
    let id = suc (last_run_id s.runs) in
    let (rows, e) =
      insert_observations_returns id r.collector r.observations s.observations d
        (All-Free (last_run_id s.runs) id r.observations s.observations (omega arith) v.item_ids) in
    rw (h, e) (id, _, refl)
