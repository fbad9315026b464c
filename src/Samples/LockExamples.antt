-- ===== src/Samples/LockExamples.antt =====
-- Examples for the run lock.
use smartwatch_clank.Base.{ℕ, ◌≡◌, refl, true, false, none, some}
use smartwatch_clank.Lock.{Host, new_lock, acquire, open_file, acquire_on, os_lock, write_owner}
use smartwatch_clank.Lock.Worlds.{
  World, acquire_by, release_by, crash, acquires, Reachable, start, later,
}
use smartwatch_clank.Lock.Exclusion.{at_most_one_acquired, lock_is_freed}

abbrev willing : Host
willing = record {
  open_error = none;
  read_only_fails = false;
  lock_fails = false;
  write_failure = none;
  unlock_error = none;
  pid = 1;
  hostname = "9b2b3d7c3b9a";
  now = "2026-01-01";
}

-- the unlocking raises
abbrev failing : Host
failing = record willing { unlock_error = some 5 }

abbrev idle : World
idle = record {
  disk = record { file = none; held = none; next = 3 };
  lock_of = λ i. new_lock "watch.db" "watch.db.lock" "token";
}

abbrev taken : World
taken = acquire_by 1 willing idle

taken-Reachable : Reachable taken
taken-Reachable = later (start refl (λ i. (refl, refl))) (acquires 1 willing)

first_acquired : (taken.lock_of 1).acquired ≡ true
unfolding acquire_by acquire open_file acquire_on os_lock write_owner
first_acquired = refl

-- a second process tries while the first has the lock
abbrev contended : World
contended = acquire_by 2 willing taken

contended_acquired : (contended.lock_of 1).acquired ≡ true
unfolding acquire_by acquire open_file acquire_on os_lock write_owner
contended_acquired = refl

at_most_one_acquired_example : ◌≡◌ {A = ℕ} 1 1
at_most_one_acquired_example =
    at_most_one_acquired contended 1 1 (later taken-Reachable (acquires 2 willing))
      contended_acquired contended_acquired

second_refused : (contended.lock_of 2).acquired ≡ false
unfolding acquire_by acquire open_file acquire_on os_lock write_owner
second_refused = refl

lock_is_freed_example :
    (((acquire_by 2 willing (release_by 1 failing taken)).lock_of 2).acquired ≡ true)
    × (((acquire_by 2 willing (crash 1 taken)).lock_of 2).acquired ≡ true)
lock_is_freed_example =
    lock_is_freed taken 1 2 failing willing taken-Reachable first_acquired refl refl
