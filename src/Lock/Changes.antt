-- ===== src/Lock/Changes.antt =====
-- core/lock.py: what a call does to the lock object and to the holder of the kernel's lock.
use smartwatch_clank.Base.{
  ℕ, suc, ◌≤◌, ◌<◌, ◌≡◌, ◌≢◌, ◌⊎◌, inl, inr, refl, sym, ap, ◌∙◌, Bool, true, false, Option, none,
  some, if◌then◌else◌, ◌==◌, nat_eq, option_eq, option_beq_iff, Bool-cases, Option-cases, arith,
}
use smartwatch_clank.Lock.{
  Host, Disk, RunLock, Call, Opened, opened, refused, open_file, os_lock, os_unlock, close,
  write_owner, acquire_on, acquire, release,
}
use smartwatch_clank.Lock.Worlds.{die}

-- What a call may do: leave object and holder alone; or take a free lock on a new descriptor; or let
-- its own go.
pub data Change (l : RunLock) (d : Disk) (c : Call) : Type 0 where
  stays : c.lock ≡ l → c.disk.held ≡ d.held → d.next ≤ c.disk.next → Change l d c
  takes :
      (fd : ℕ)
      → d.held ≡ none
      → c.lock.fd ≡ some fd
      → c.disk.held ≡ some fd
      → fd < c.disk.next
      → Change l d c
  lets_go :
      (fd : ℕ)
      → l.fd ≡ some fd
      → c.lock.fd ≡ none
      → c.lock.acquired ≡ false
      → ((d.held ≡ some fd) → c.disk.held ≡ none)
      → d.next ≤ c.disk.next
      → Change l d c

pub none_ne_some : (a : ℕ) → none ≢ some a
none_ne_some a h = cc

-- Closing a descriptor that does not hold the lock changes nothing; closing the one that does frees it.
close_other : (fd : ℕ) (d : Disk) → (d.held == some fd) ≡ false → close fd d ≡ d
unfolding close
close_other fd d n = rw n refl

pub close_own : (fd : ℕ) (d : Disk) → d.held ≡ some fd → (close fd d).held ≡ none
unfolding close
close_own fd d e = ground (arith, option_beq_iff d.held (some fd))

close-unheld : (fd : ℕ) (d : Disk) → d.held ≡ none → (close fd d).held ≡ none
unfolding close
close-unheld fd d e = ground (arith, option_beq_iff d.held (some fd))

close_next : (fd : ℕ) (d : Disk) → (close fd d).next ≡ d.next
unfolding close
close_next fd d = ground arith

-- A descriptor that is new holds no lock.
new_fd : (d : Disk) → ((fd : ℕ) → d.held ≡ some fd → fd < d.next) → (d.held == some d.next) ≡ false
new_fd d old = ground (arith, option_beq_iff d.held (some d.next), old d.next)

-- What taking the kernel's lock finds and leaves.
pub os_lock_lem :
    (h : Host) (fd : ℕ) (d d' : Disk)
    → (d.held == some fd) ≡ false
    → os_lock h fd d ≡ some d'
    → (d.held ≡ none) × (d' ≡ record d { held = some fd })
unfolding os_lock
os_lock_lem h fd d d' n e = (ground (arith, option_beq_iff d.held none), ground arith)

write_owner_keeps :
    (h : Host) (l : RunLock) (d : Disk)
    → ((write_owner h l d).held ≡ d.held) × ((write_owner h l d).next ≡ d.next)
unfolding write_owner
write_owner_keeps h l d = (ground arith, ground arith)

acquire_on-Change :
    (h : Host) (l : RunLock) (fd : ℕ) (writable : Bool) (d d' : Disk)
    → (d'.held == some fd) ≡ false
    → d'.held ≡ d.held
    → d'.next ≡ suc fd
    → fd ≡ d.next
    → Change l d (acquire_on h l fd writable d')
unfolding acquire_on
acquire_on-Change h l fd writable d d' n e x y = go (os_lock h fd d') refl
  where
    written :
        (b : Bool) (z : Disk)
        → ((if b then write_owner h l z else z).held ≡ z.held)
          × ((if b then write_owner h l z else z).next ≡ z.next)
    written true z = write_owner_keeps h l z
    written false z = (refl, refl)

    go : (o : Option Disk) → os_lock h fd d' ≡ o → Change l d (acquire_on h l fd writable d')
    go none q = rw (q, acquire_on) (rw (close_other fd d' n) (stays refl e (omega arith)))
    go (some d2) q =
        let (free, taken) = os_lock_lem h fd d' d2 n q in
        rw (q, acquire_on)
          (takes fd (sym e ∙ free) refl ((written writable d2).0 ∙ ap (λ (z : Disk). z.held) taken)
            (ground (arith, (written writable d2).1, ap (λ (z : Disk). z.next) taken)))

-- An opening keeps the holder, and gives the next descriptor.
pub open_file_lem :
    (h : Host) (d d' : Disk) (writable : Bool)
    → open_file h d ≡ opened writable d'
    → (d'.held ≡ d.held) × (d'.next ≡ suc d.next)
unfolding open_file
open_file_lem h d d' writable e = (ground arith, ground arith)

pub acquire-Change :
    (h : Host) (l : RunLock) (d : Disk)
    → ((fd : ℕ) → d.held ≡ some fd → fd < d.next)
    → Change l d (acquire h l d)
unfolding acquire
acquire-Change h l d old = go (open_file h d) refl
  where
    go : (o : Opened) → open_file h d ≡ o → Change l d (acquire h l d)
    go (refused e) q = rw (q, acquire) (stays refl refl (omega arith))
    go (opened writable d') q =
        let (x, y) = open_file_lem h d d' writable q in
        rw (q, acquire) (acquire_on-Change h l d.next writable d d' (rw x (new_fd d old)) x y refl)

-- What releasing does to an object that has the lock.
pub release_lem :
    (h : Host) (l : RunLock) (d : Disk) (fd : ℕ)
    → l.fd ≡ some fd
    → l.acquired ≡ true
    → ((release h l d).lock ≡ record l { fd = none; acquired = false })
      × ((release h l d).disk ≡ close fd (os_unlock h fd d))
unfolding release
release_lem h l d fd e a = (ground arith, ground arith)

pub unlocked :
    (h : Host) (d : Disk) (fd : ℕ)
    → ((d.held ≡ some fd) → (close fd (os_unlock h fd d)).held ≡ none)
      × ((close fd (os_unlock h fd d)).next ≡ d.next)
unfolding os_unlock close
unlocked h d fd = (λ e. ground (arith, option_beq_iff d.held (some fd)), ground arith)

release-Change :
    (h : Host) (l : RunLock) (d : Disk) (fd : ℕ)
    → l.fd ≡ some fd
    → l.acquired ≡ true
    → Change l d (release h l d)
release-Change h l d fd e a =
    let (x, y) = release_lem h l d fd e a in
    let (f, n) = unlocked h d fd in
    lets_go fd e (ap (λ (z : RunLock). z.fd) x) (ap (λ (z : RunLock). z.acquired) x)
      (λ q. ap (λ (z : Disk). z.held) y ∙ f q) (rw y (omega (arith, n)))

release_idle :
    (h : Host) (l : RunLock) (d : Disk)
    → (l.fd ≡ none) ⊎ (l.acquired ≡ false)
    → release h l d ≡ record { raised = none; lock = l; disk = d }
unfolding release
release_idle h l d (inl e) = ground arith
release_idle h l d (inr e) = ground arith

stays_idle :
    (l : RunLock) (d : Disk) (c : Call)
    → c ≡ record { raised = none; lock = l; disk = d }
    → Change l d c
stays_idle l d c e =
    stays (ap (λ (z : Call). z.lock) e) (ap (λ (z : Call). z.disk.held) e)
      (omega (arith, ap (λ (z : Call). z.disk.next) e))

pub any_release-Change : (h : Host) (l : RunLock) (d : Disk) → Change l d (release h l d)
any_release-Change h l d = elim (Option-cases (l.fd)) [
  | inl e ↦ stays_idle l d _ (release_idle h l d (inl e))
  | inr (fd, e) ↦ elim (Bool-cases (l.acquired)) [
    | inl a ↦ release-Change h l d fd e a
    | inr a ↦ stays_idle l d _ (release_idle h l d (inr a))
  ]
]

pub die_lem :
    (l : RunLock) (d : Disk) (fd : ℕ)
    → l.fd ≡ some fd
    → die l d
      ≡ record { raised = none; lock = record l { fd = none; acquired = false }; disk = close fd d }
unfolding die
die_lem l d fd e = ground arith

die_idle :
    (l : RunLock) (d : Disk) → l.fd ≡ none → die l d ≡ record { raised = none; lock = l; disk = d }
unfolding die
die_idle l d e = ground arith

pub die-Change : (l : RunLock) (d : Disk) → Change l d (die l d)
die-Change l d = elim (Option-cases (l.fd)) [
  | inl e ↦ stays_idle l d _ (die_idle l d e)
  | inr (fd, e) ↦
      let x = die_lem l d fd e in
      lets_go fd e (ap (λ (z : Call). z.lock.fd) x) (ap (λ (z : Call). z.lock.acquired) x)
        (λ q. ap (λ (z : Call). z.disk.held) x ∙ close_own fd d q)
        (omega (arith, ap (λ (z : Call). z.disk.next) x, close_next fd d))
]
