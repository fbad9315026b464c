-- ===== src/Lock.antt =====
-- src/smartwatch_clank/core/lock.py: the run lock on one database. A `Disk` is the lock file and the
-- kernel's part in it: which open descriptor holds the advisory lock of the file's inode, as `flock`
-- documents it. A `Host` is what the operating system answers to the calls of one attempt.
pub mod Worlds
pub mod Changes
pub mod Exclusion
use smartwatch_clank.Base.{
  ℕ, zero, suc, String, Bool, true, false, not, ◌&&◌, ◌||◌, Option, none, some, if◌then◌else◌, ◌==◌,
  nat_eq, option_eq,
}
use smartwatch_clank.Base.Json.{Json, int, str, obj, field, end}
use smartwatch_clank.Platform.{Signed, below, whole}

-- what the lock file holds: a JSON document, or a text that is none
pub data Content : Type 0 where
  document : Json → Content
  unreadable : Content

pub record Disk : Type 0 where
  pub file : Option Content
  pub held : Option ℕ
  -- the next descriptor that an `open` gives
  pub next : ℕ

-- where the writing of the metadata raises
pub data WriteFailure : Type 0 where
  truncating writing : WriteFailure

pub record Host : Type 0 where
  -- errno of the opening for reading and writing, and whether the other opening raises
  pub open_error : Option ℕ
  pub read_only_fails : Bool
  -- `flock` raises for a reason of its own
  pub lock_fails : Bool
  pub write_failure : Option WriteFailure
  pub unlock_error : Option ℕ
  pub pid : ℕ
  pub hostname : String
  pub now : String

pub record RunLock : Type 0 where
  pub path : String
  pub database : String
  pub token : String
  pub acquired : Bool
  pub fd : Option ℕ

-- `RunLock.__init__`
abbrev pub new_lock : (database path token : String) → RunLock
new_lock database path token = record {
  path = path;
  database = database;
  token = token;
  acquired = false;
  fd = none;
}

pub data LockError : Type 0 where
  -- an OSError that is passed on, by its errno
  os_error : ℕ → LockError
  no_lock_file : LockError
  -- with the owner that the message shows
  held_by : Json → LockError

abbrev pub erofs : ℕ
erofs = 30

-- `RunLock._read_owner`; a file that is not UTF-8, which the program never writes, has no case
unfoldable pub read_owner : RunLock → Disk → Json
read_owner l d = elim (d.file) [
  | some (document j) ↦ j
  | _ ↦ obj (field "owner" (str "unreadable") (field "path" (str l.path) end))
]

-- the metadata that `acquire` writes
unfoldable pub owner : Host → RunLock → Json
owner h l = obj (
    field "acquired_at" (str h.now) (
      field "database" (str l.database) (
        field "host" (str h.hostname) (field "pid" (int h.pid) (field "token" (str l.token) end)))))

unfoldable pub write_owner : Host → RunLock → Disk → Disk
write_owner h l d = elim (h.write_failure) [
  | none ↦ record d { file = some (document (owner h l)) }
  | some truncating ↦ d
  | some writing ↦ record d { file = some unreadable }
]

-- the file after an opening with O_CREAT
abbrev pub created : Option Content → Option Content
created none = some unreadable
created (some x) = some x

abbrev pub is_there : Option Content → Bool
is_there none = false
is_there (some x) = true

-- What the two openings give: whether the descriptor can be written, and the disk. The descriptor is
-- the one that was next.
pub data Opened : Type 0 where
  opened : (writable : Bool) → Disk → Opened
  refused : LockError → Opened

unfoldable pub open_file : Host → Disk → Opened
open_file h d = elim (h.open_error) [
  | none ↦ opened true (record d { file = created d.file; next = suc d.next })
  | some e ↦
      if not (e == erofs)
      then refused (os_error e)
      else if is_there d.file && not h.read_only_fails
      then opened false (record d { next = suc d.next })
      else refused no_lock_file
]

-- `_os_lock`: it raises where another descriptor holds the lock
unfoldable pub os_lock : Host → ℕ → Disk → Option Disk
os_lock h fd d =
    if h.lock_fails
    then none
    else if d.held == none || d.held == some fd
    then some (record d { held = some fd })
    else none

-- `os.close`: the kernel frees the lock of the descriptor
unfoldable pub close : ℕ → Disk → Disk
close fd d = if d.held == some fd then record d { held = none } else d

-- `_os_unlock`
unfoldable pub os_unlock : Host → ℕ → Disk → Disk
unfolding close
os_unlock h fd d = elim (h.unlock_error) [ none ↦ close fd d | some e ↦ d ]

-- The outcome of a call: what it raises, the object, and the disk.
pub record Call : Type 0 where
  pub raised : Option LockError
  pub lock : RunLock
  pub disk : Disk

-- the rest of `acquire`, on the descriptor `fd`
unfoldable pub acquire_on : Host → RunLock → ℕ → (writable : Bool) → Disk → Call
acquire_on h l fd writable d = elim (os_lock h fd d) [
  | none ↦ record { raised = some (held_by (read_owner l d)); lock = l; disk = close fd d }
  | some d' ↦ record {
    raised = none;
    lock = record l { fd = some fd; acquired = true };
    disk = if writable then write_owner h l d' else d';
  }
]

-- `RunLock.acquire`
unfoldable pub acquire : Host → RunLock → Disk → Call
acquire h l d = elim (open_file h d) [
  | refused e ↦ record { raised = some e; lock = l; disk = d }
  | opened writable d' ↦ acquire_on h l d.next writable d'
]

-- `RunLock.release`; where the unlocking raises, the error goes on after the `finally`
unfoldable pub release : Host → RunLock → Disk → Call
release h l d = elim (l.fd) [
  | none ↦ record { raised = none; lock = l; disk = d }
  | some fd ↦ if not l.acquired then record { raised = none; lock = l; disk = d } else record {
    raised = elim (h.unlock_error) [ none ↦ none | some e ↦ some (os_error e) ];
    lock = record l { fd = none; acquired = false };
    disk = close fd (os_unlock h fd d);
  }
]

-- the answers of `os.kill(pid, 0)`
pub data Killed : Type 0 where
  delivered no_process no_permission other_os_error : Killed

-- `_pid_is_alive` on POSIX
unfoldable pub pid_is_alive : Signed → Killed → Bool
pid_is_alive (below n) answer = false
pid_is_alive (whole zero) answer = false
pid_is_alive (whole (suc n)) delivered = true
pid_is_alive (whole (suc n)) no_process = false
pid_is_alive (whole (suc n)) no_permission = true
pid_is_alive (whole (suc n)) other_os_error = false
