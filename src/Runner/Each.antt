-- ===== src/Runner/Each.antt =====
-- core/runner.py: the runs of an invocation, one after the other.
use smartwatch_clank.Base.{String, ◌≡◌, ◌≢◌, inl, inr, ap, ◌∙◌, subst, List, [], ◌∷◌, string_eq}
use smartwatch_clank.Base.Json.{Fields}
use smartwatch_clank.Base.Result.{Exn, ok, err, Result-cases}
use smartwatch_clank.Platform.{Platform}
use smartwatch_clank.Models.{RunOutcome}
use smartwatch_clank.Registry.{Collector}
use smartwatch_clank.Store.{Store}
use smartwatch_clank.Runner.{Runner, Reading, run_one, run_each}
use smartwatch_clank.Runner.Silence.{ok_inj}
use smartwatch_clank.Runner.Consistent.{IsConsistent, run_one-IsConsistent}

ok_ne_err {ℓ} : {A : Type ℓ} (a : A) (e : Exn) → err e ≢ ok a
ok_ne_err a e h = cc

module _ (p : Platform) (runner : Runner) (scope : String) (meta : Fields)
    (readings : Collector → Reading) where
  -- The runs of several collectors that return are the run of the first, and those of the others
  -- from the store that it leaves.
  run_each-parts :
      (c : Collector) (cs : List Collector) (s t : Store) (os : List RunOutcome)
      → run_each p runner scope meta readings (c ∷ cs) s ≡ ok (os, t)
      → (o : RunOutcome) × (u : Store) × (rest : List RunOutcome) × (run_one p runner scope meta c
            (readings c)
            s
          ≡ ok (o, u))
        × (run_each p runner scope meta readings cs u ≡ ok (rest, t))
  unfolding run_each
  run_each-parts c cs s t os h =
      elim (Result-cases (run_one p runner scope meta c (readings c) s)) [
        | inl (x, e) ↦ absurd (ok_ne_err _ x (rw (e, run_each) at h))
        | inr (r, e) ↦ elim (Result-cases (run_each p runner scope meta readings cs r.1)) [
          | inl (x, q) ↦ absurd (ok_ne_err _ x (rw (e, q, run_each) at h))
          | inr (w, q) ↦ (
            r.0,
            r.1,
            w.0,
            e,
            q
                ∙ ap (λ y. ok (w.0, y))
                    (ap (λ (y : List RunOutcome × Store). y.1)
                      (ok_inj (r.0 ∷ w.0, w.1) (os, t) (rw (e, q, run_each) at h))),
          )
        ]
      ]

  -- Runs that return keep the tables referring to each other: no id above that of the last run, and
  -- an epoch for every run and for every event.
  pub run_each-IsConsistent :
      (cs : List Collector) (s t : Store) (os : List RunOutcome)
      → IsConsistent s
      → run_each p runner scope meta readings cs s ≡ ok (os, t)
      → IsConsistent t
  unfolding run_each
  run_each-IsConsistent [] s t os v h =
      subst IsConsistent (ap (λ r. r.1) (ok_inj ([], s) (os, t) h)) v
  run_each-IsConsistent (c ∷ cs) s t os v h =
      let (o, u, rest, a, b) = run_each-parts c cs s t os h in
      run_each-IsConsistent cs u t rest
        (run_one-IsConsistent p runner scope meta c (readings c) s u o v a) b
