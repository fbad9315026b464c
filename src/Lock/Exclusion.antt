-- ===== src/Lock/Exclusion.antt =====
-- core/lock.py: at most one process has the lock, and it is freed when that process ends.
use smartwatch_clank.Base.{
  ℕ, ◌≡◌, inl, inr, refl, sym, ap, ◌∙◌, true, false, none, some, ◌==◌, nat_eq, nat_beq_iff,
  option_eq, Bool-cases, false≢true, beq_refl, arith,
}
use smartwatch_clank.Lock.{
  Host, Disk, RunLock, Call, open_file, os_lock, acquire_on, acquire, release,
}
use smartwatch_clank.Lock.Worlds.{
  World, with_lock, acquire_by, release_by, crash, die, Move, acquires, releases, crashes,
  Reachable, start, later, IsExclusive,
}
use smartwatch_clank.Lock.Changes.{
  Change, stays, takes, lets_go, acquire-Change, any_release-Change, die-Change, none_ne_some,
  release_lem, unlocked, die_lem, close_own,
}

module _ (i : ℕ) (c : Call) (w : World) (v : IsExclusive w) where
  acquired_fd :
      Change (w.lock_of i) w.disk c → c.lock.acquired ≡ true → (fd : ℕ) × (c.lock.fd ≡ some fd)
  acquired_fd (stays e q n) k = rw e (v.has_fd i (rw e at k))
  acquired_fd (takes f a b d n) k = (f, b)
  acquired_fd (lets_go f a b d g n) k = absurd (cc (d, k))

  fds_after :
      Change (w.lock_of i) w.disk c
      → (j : ℕ) → ((with_lock i c w).lock_of j).acquired ≡ true
      → (fd : ℕ) × (((with_lock i c w).lock_of j).fd ≡ some fd)
  fds_after e j h = elim (Bool-cases (j == i)) [
    | inl b ↦ rw b (acquired_fd e (rw b at h))
    | inr b ↦ rw b (v.has_fd j (rw b at h))
  ]

  -- The invariant after a call.
  with_lock-IsExclusive : Change (w.lock_of i) w.disk c → IsExclusive (with_lock i c w)
  with_lock-IsExclusive (stays e q n) = record {
    holds = λ j fd h. ground (arith, v.holds j fd, v.holds i fd);
    apart = λ j m fd h g.
        ground
          (arith, v.apart j m fd, v.apart i m fd, v.apart j i fd, nat_beq_iff j i, nat_beq_iff m i);
    older = λ fd h. ground (arith, v.older fd);
    has_fd = fds_after (stays e q n);
  }
  with_lock-IsExclusive (takes f a b d n) = record {
    holds = λ j fd h. ground (arith, v.holds j fd);
    apart = λ j m fd h g.
        ground
          (arith, v.holds j fd, v.holds m fd, v.apart j m fd, nat_beq_iff j i, nat_beq_iff m i);
    older = λ fd h. ground arith;
    has_fd = fds_after (takes f a b d n);
  }
  with_lock-IsExclusive (lets_go f a b d g n) = record {
    holds = λ j fd h. ground (arith, v.holds j fd, v.holds i f, v.apart j i fd, nat_beq_iff j i);
    apart = λ j m fd h' g'. ground (arith, v.apart j m fd, nat_beq_iff j i, nat_beq_iff m i);
    older = λ fd h. absurd (none_ne_some fd (sym (g (v.holds i f a)) ∙ h));
    has_fd = fds_after (lets_go f a b d g n);
  }

Move-IsExclusive : (w u : World) → IsExclusive w → Move w u → IsExclusive u
unfolding acquire_by release_by crash
Move-IsExclusive w u v (acquires i h) =
    with_lock-IsExclusive i _ w v (acquire-Change h (w.lock_of i) w.disk v.older)
Move-IsExclusive w u v (releases i h) =
    with_lock-IsExclusive i _ w v (any_release-Change h (w.lock_of i) w.disk)
Move-IsExclusive w u v (crashes i) = with_lock-IsExclusive i _ w v (die-Change (w.lock_of i) w.disk)

reachable-IsExclusive : (w : World) → Reachable w → IsExclusive w
reachable-IsExclusive w (start free idle) = record {
  holds = λ i fd h. absurd (none_ne_some fd (sym ((idle i).0) ∙ h));
  apart = λ i j fd h g. absurd (none_ne_some fd (sym ((idle i).0) ∙ h));
  older = λ fd h. absurd (none_ne_some fd (sym free ∙ h));
  has_fd = λ i h. absurd (false≢true (sym ((idle i).1) ∙ h));
}
reachable-IsExclusive w (later r m) = Move-IsExclusive _ w (reachable-IsExclusive _ r) m

-- However processes take, release and lose the lock, whether their file can be written or not and
-- whichever calls the system refuses them, at most one of them has acquired it.
pub at_most_one_acquired :
    (w : World) (i j : ℕ)
    → Reachable w
    → (w.lock_of i).acquired ≡ true
    → (w.lock_of j).acquired ≡ true
    → i ≡ j
at_most_one_acquired w i j r a b =
    let v = reachable-IsExclusive w r in
    let (f, x) = v.has_fd i a in
    let (g, y) = v.has_fd j b in v.apart i j f x (y ∙ sym (v.holds j g y) ∙ v.holds i f x)

-- A call that finds the lock free takes it, where the system refuses nothing.
acquire_free :
    (h : Host) (l : RunLock) (d : Disk)
    → d.held ≡ none
    → h.open_error ≡ none
    → h.lock_fails ≡ false
    → ((acquire h l d).raised ≡ none) × ((acquire h l d).lock.acquired ≡ true)
unfolding acquire open_file acquire_on os_lock
acquire_free h l d f o g = rw (o, g, f) (refl, refl)

freed_by_release :
    (h : Host) (l : RunLock) (d : Disk) (fd : ℕ)
    → l.fd ≡ some fd
    → l.acquired ≡ true
    → d.held ≡ some fd
    → (release h l d).disk.held ≡ none
freed_by_release h l d fd e a q =
    ap (λ (z : Disk). z.held) (release_lem h l d fd e a).1 ∙ (unlocked h d fd).0 q

freed_by_death :
    (l : RunLock) (d : Disk) (fd : ℕ)
    → l.fd ≡ some fd
    → d.held ≡ some fd
    → (die l d).disk.held ≡ none
freed_by_death l d fd e q = ap (λ (z : Call). z.disk.held) (die_lem l d fd e) ∙ close_own fd d q

next_takes :
    (j : ℕ) (g : Host) (u : World)
    → u.disk.held ≡ none
    → g.open_error ≡ none
    → g.lock_fails ≡ false
    → ((acquire_by j g u).lock_of j).acquired ≡ true
unfolding acquire_by
next_takes j g u f o k = rw (beq_refl j) (acquire_free g (u.lock_of j) u.disk f o k).1

-- In whatever is reached, once the process that has acquired the lock releases it, even where the
-- unlocking raises, or dies, a process that tries next acquires it, where the system lets it open
-- the file and refuses it no lock of its own.
pub lock_is_freed :
    (w : World) (i j : ℕ) (h g : Host)
    → Reachable w
    → (w.lock_of i).acquired ≡ true
    → g.open_error ≡ none
    → g.lock_fails ≡ false
    → (((acquire_by j g (release_by i h w)).lock_of j).acquired ≡ true)
      × (((acquire_by j g (crash i w)).lock_of j).acquired ≡ true)
lock_is_freed w i j h g r a o k =
    let v = reachable-IsExclusive w r in
    let (f, x) = v.has_fd i a in
    let q = v.holds i f x in
    (
      next_takes j g (release_by i h w)
          (unfold release_by in freed_by_release h (w.lock_of i) w.disk f x a q) o k,
      next_takes j g (crash i w) (unfold crash in freed_by_death (w.lock_of i) w.disk f x q) o k,
    )
