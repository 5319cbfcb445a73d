-- ===== src/Sleeplock.antt =====
-- kernel/sleeplock.c: the fields under the spinlock `lk`. A round of `acquiresleep` either takes the
-- lock or sleeps, and is run again after a wakeup.
use g14_os_project.Prelude.{
  ℕ, ◌≡◌, refl, Bool, true, false, ◌&&◌, Option, none, some, ◌==◌, arith, if◌then◌else◌,
}

pub record Sleeplock : Type 0 where
  pub locked : Bool
  pub pid : ℕ

abbrev pub initsleeplock : Sleeplock
initsleeplock = record { locked = false; pid = 0 }

-- `none`: the caller sleeps on the lock.
unfoldable pub acquiresleep : ℕ → Sleeplock → Option Sleeplock
acquiresleep me l = if l.locked then none else some (record { locked = true; pid = me })

-- Whoever sleeps on the lock is woken.
unfoldable pub releasesleep : Sleeplock → Sleeplock
releasesleep l = record { locked = false; pid = 0 }

unfoldable pub holdingsleep : ℕ → Sleeplock → Bool
holdingsleep me l = l.locked && l.pid == me

-- A sleep lock that a process holds makes every `acquiresleep`, its own too, sleep; the process alone
-- is the holder; and after its release the next `acquiresleep`, whoever calls it, takes the lock.
pub acquiresleep_excludes :
    (me other : ℕ) (l held : Sleeplock)
    → acquiresleep me l ≡ some held
    → (holdingsleep me held ≡ true)
      × (holdingsleep other held ≡ (me == other))
      × (acquiresleep other held ≡ none)
      × (acquiresleep other (releasesleep held) ≡ some (record { locked = true; pid = other }))
unfolding acquiresleep releasesleep holdingsleep
acquiresleep_excludes me other l held e =
    let now : record { locked = true; pid = me } ≡ held = ground arith in
    rw (← now) ((ground arith), refl, refl, refl)
