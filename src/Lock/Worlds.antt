-- ===== src/Lock/Worlds.antt =====
-- core/lock.py: processes that take, release and lose the lock on one database.
use smartwatch_clank.Base.{
  ℕ, ◌<◌, ◌≡◌, true, false, none, some, if◌then◌else◌, ◌==◌, nat_eq, option_eq,
}
use smartwatch_clank.Lock.{Host, Disk, RunLock, Call, close, acquire, release}

pub record World : Type 0 where
  pub disk : Disk
  -- the lock object of each process
  pub lock_of : ℕ → RunLock

abbrev pub with_lock : ℕ → Call → World → World
with_lock i c w = record { disk = c.disk; lock_of = λ j. if j == i then c.lock else w.lock_of j }

unfoldable pub acquire_by : ℕ → Host → World → World
acquire_by i h w = with_lock i (acquire h (w.lock_of i) w.disk) w

unfoldable pub release_by : ℕ → Host → World → World
release_by i h w = with_lock i (release h (w.lock_of i) w.disk) w

-- A process dies: the kernel closes its descriptor. What starts next in its place has an object of
-- its own.
unfoldable pub die : RunLock → Disk → Call
die l d = elim (l.fd) [
  | none ↦ record { raised = none; lock = l; disk = d }
  | some fd ↦ record {
    raised = none;
    lock = record l { fd = none; acquired = false };
    disk = close fd d;
  }
]

unfoldable pub crash : ℕ → World → World
crash i w = with_lock i (die (w.lock_of i) w.disk) w

-- What can happen next.
pub data Move : World → World → Type 0 where
  acquires : {w : World} (i : ℕ) (h : Host) → Move w (acquire_by i h w)
  releases : {w : World} (i : ℕ) (h : Host) → Move w (release_by i h w)
  crashes : {w : World} (i : ℕ) → Move w (crash i w)

-- What is reached from processes that have no lock yet and a file that nobody holds.
pub data Reachable : World → Type 0 where
  start :
      {w : World}
      → w.disk.held ≡ none
      → ((i : ℕ) → ((w.lock_of i).fd ≡ none) × ((w.lock_of i).acquired ≡ false))
      → Reachable w
  later : {w v : World} → Reachable w → Move w v → Reachable v

-- A descriptor of an object is the one that the kernel has, no two objects have the same, and it is
-- older than the next; an object says that it is acquired exactly while it has a descriptor.
pub record IsExclusive (w : World) : Type 0 where
  pub holds : (i fd : ℕ) → (w.lock_of i).fd ≡ some fd → w.disk.held ≡ some fd
  pub apart : (i j fd : ℕ) → (w.lock_of i).fd ≡ some fd → (w.lock_of j).fd ≡ some fd → i ≡ j
  pub older : (fd : ℕ) → w.disk.held ≡ some fd → fd < w.disk.next
  pub has_fd : (i : ℕ) → (w.lock_of i).acquired ≡ true → (fd : ℕ) × ((w.lock_of i).fd ≡ some fd)
