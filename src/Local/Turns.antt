-- ===== src/Local/Turns.antt =====
-- local_collection.py: requests, threads and the state of the controller.
use smartwatch_clank.Base.{
  ℕ, suc, ◌+◌, String, ◌≡◌, inl, inr, refl, sym, ◌∙◌, false, some, List, ◌∷◌, [], contains,
  Bool-cases, if◌then◌else◌, string_eq, arith,
}
use smartwatch_clank.Models.{RunOutcome}
use smartwatch_clank.Local.{
  Ending, lock_refused, schema_refused, raised, collected, Phase, idle, queued, running, success,
  degraded, failed, already_running, Snapshot, ready, is_busy, Answer, source_not_allowed,
  collection_already_running, accepted, start_collection, begin, finish, phase_of,
}

-- The controller and its threads: those that wait to begin, and those that collect.
pub record Controller : Type 0 where
  pub state : Snapshot
  pub waiting : ℕ
  pub working : ℕ

abbrev pub thread_for : Answer → ℕ
thread_for accepted = 1
thread_for source_not_allowed = 0
thread_for collection_already_running = 0

-- What can happen next: a request, the beginning of a thread that waits, the end of one that collects.
pub data Turn (allowed : List String) : Controller → Controller → Type 0 where
  requests :
      {c : Controller} (source : String)
      → Turn allowed c (record c {
        state = (start_collection allowed source c.state).1;
        waiting = c.waiting + thread_for (start_collection allowed source c.state).0;
      })
  begins :
      {c : Controller} (now n : ℕ)
      → c.waiting ≡ suc n
      → Turn allowed c (record { state = begin now c.state; waiting = n; working = suc c.working })
  finishes :
      {c : Controller} (now n : ℕ) (e : Ending)
      → c.working ≡ suc n
      → Turn allowed c (record c { state = finish now e c.state; working = n })

pub data Reached (allowed : List String) : Controller → Type 0 where
  at_start : Reached allowed (record { state = ready; waiting = 0; working = 0 })
  next : {c d : Controller} → Reached allowed c → Turn allowed c d → Reached allowed d

abbrev waits : Phase → ℕ
waits queued = 1
waits _ = 0

abbrev works : Phase → ℕ
works running = 1
works _ = 0

-- The state tells how many threads there are.
record Tells (c : Controller) : Type 0 where
  pub waiting : c.waiting ≡ waits c.state.phase
  pub working : c.working ≡ works c.state.phase

by_phase : (o : RunOutcome) → is_busy (phase_of o) ≡ false
unfolding phase_of
by_phase o = ground arith

-- A collection that has ended, however it ended, leaves the controller free.
pub finish_lem :
    (now : ℕ) (e : Ending) (s : Snapshot)
    → (is_busy (finish now e s).phase ≡ false) × ((finish now e s).finished_at ≡ some now)
unfolding finish phase_of
finish_lem now (collected (o ∷ os) r _ _) s = (by_phase o, refl)
finish_lem now (collected [] r _ _) s = (refl, refl)
finish_lem now (lock_refused x) s = (refl, refl)
finish_lem now (schema_refused x) s = (refl, refl)
finish_lem now (raised x) s = (refl, refl)

free : (ph : Phase) → is_busy ph ≡ false → (waits ph ≡ 0) × (works ph ≡ 0)
free queued h = absurd (cc h)
free running h = absurd (cc h)
free idle h = (refl, refl)
free success h = (refl, refl)
free degraded h = (refl, refl)
free failed h = (refl, refl)
free already_running h = (refl, refl)

after_request :
    (allowed : List String) (source : String) (s : Snapshot)
    → (waits s.phase + thread_for (start_collection allowed source s).0
        ≡ waits (start_collection allowed source s).1.phase)
      × (works s.phase ≡ works (start_collection allowed source s).1.phase)
unfolding start_collection
after_request allowed source s = elim (Bool-cases (contains allowed source)) [
  | inr q ↦ rw q (omega arith, refl)
  | inl q ↦ elim (Bool-cases (is_busy s.phase)) [
    | inl b ↦ rw (q, b) (omega arith, refl)
    | inr b ↦ let (x, y) = free s.phase b in rw (q, b) (omega (arith, x), y)
  ]
]

one_waits : (ph : Phase) (n : ℕ) → waits ph ≡ suc n → (n ≡ 0) × (works ph ≡ 0)
one_waits queued n h = (omega (arith, h), refl)
one_waits running n h = absurd (cc h)
one_waits idle n h = absurd (cc h)
one_waits success n h = absurd (cc h)
one_waits degraded n h = absurd (cc h)
one_waits failed n h = absurd (cc h)
one_waits already_running n h = absurd (cc h)

one_works : (ph : Phase) (n : ℕ) → works ph ≡ suc n → (n ≡ 0) × (waits ph ≡ 0)
one_works running n h = (omega (arith, h), refl)
one_works queued n h = absurd (cc h)
one_works idle n h = absurd (cc h)
one_works success n h = absurd (cc h)
one_works degraded n h = absurd (cc h)
one_works failed n h = absurd (cc h)
one_works already_running n h = absurd (cc h)

Turn-Tells : (allowed : List String) (c d : Controller) → Tells c → Turn allowed c d → Tells d
Turn-Tells allowed c d t (requests source) =
    let (x, y) = after_request allowed source c.state in
    record { waiting = rw (t.waiting) x; working = t.working ∙ y }
Turn-Tells allowed c d t (begins now n e) =
    let (x, y) = one_waits c.state.phase n (sym t.waiting ∙ e) in
    unfold begin in record { waiting = x; working = omega (arith, t.working, y) }
Turn-Tells allowed c d t (finishes now n o e) =
    let (x, y) = one_works c.state.phase n (sym t.working ∙ e) in
    let (a, b) = free (finish now o c.state).phase (finish_lem now o c.state).0 in
    record { waiting = t.waiting ∙ y ∙ sym a; working = x ∙ sym b }

Reached-Tells : (allowed : List String) (c : Controller) → Reached allowed c → Tells c
Reached-Tells allowed c at_start = record { waiting = refl; working = refl }
Reached-Tells allowed c (next r t) = Turn-Tells allowed _ c (Reached-Tells allowed _ r) t

both_counts : (ph : Phase) → waits ph + works ph ≡ (if is_busy ph then 1 else 0)
both_counts queued = refl
both_counts running = refl
both_counts idle = refl
both_counts success = refl
both_counts degraded = refl
both_counts failed = refl
both_counts already_running = refl

-- Whatever is requested and however collections end, the controller has one thread while its state is
-- queued or running, and none otherwise: no two collections of its own overlap.
pub one_collection_at_a_time :
    (allowed : List String) (c : Controller)
    → Reached allowed c
    → c.waiting + c.working ≡ (if is_busy c.state.phase then 1 else 0)
one_collection_at_a_time allowed c r =
    let t = Reached-Tells allowed c r in rw (t.waiting, t.working) (both_counts c.state.phase)
