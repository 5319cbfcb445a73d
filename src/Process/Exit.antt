-- ===== src/Process/Exit.antt =====
-- proc.c: `reparent` and `kexit`, up to its call of `sched`.
use g14_os_project.Prelude.{
  ℕ, zero, suc, Bool, false, Option, none, some, List, [], ◌∷◌, ◌==◌, if◌then◌else◌,
}
use g14_os_project.Prelude.Int.{dec_ℤ}
use g14_os_project.Process.{Kernel, Services, Chan, no_chan, at_proc, zombie, nproc}
use g14_os_project.Process.Table.{put_proc, has_parent}
use g14_os_project.Process.Sleep.{wakeup, wakeup_all}

-- wakeup(p) of a pointer that may be null.
abbrev pub chan_of : Option ℕ → Chan
chan_of none = no_chan
chan_of (some i) = at_proc i

abbrev pub is_self : Option ℕ → ℕ → Bool
is_self o i = elim o [ none ↦ false | some j ↦ j == i ]

abbrev pub closed_files : List (Option ℕ) → List (Option ℕ)
closed_files [] = []
closed_files (f ∷ fs) = none ∷ closed_files fs

module _ {W : Type 0} (sv : Services W) where
  -- One round of the loop of `reparent`.
  abbrev pub reparent_one : ℕ → ℕ → Kernel W → Kernel W
  reparent_one self i k =
      if has_parent self (k.procs i)
      then wakeup (some self) (chan_of k.initproc)
          (put_proc k i (record (k.procs i) { parent = k.initproc }))
      else k

  -- The loop over the `n` entries from `i` on.
  unfoldable pub reparent_from : ℕ → ℕ → ℕ → Kernel W → Kernel W
  reparent_from self zero i k = k
  reparent_from self (suc n) i k = reparent_from self n (suc i) (reparent_one self i k)

  unfoldable pub reparent : ℕ → Kernel W → Kernel W
  unfolding reparent_from
  reparent self = reparent_from self nproc 0

  -- The loop over the open files; what `fileclose` wakes is woken at once.
  unfoldable pub close_files : ℕ → List (Option ℕ) → Kernel W → Kernel W
  close_files self [] k = k
  close_files self (none ∷ fs) k = close_files self fs k
  close_files self (some f ∷ fs) k =
      let (w, woken) = sv.fileclose k.world f in
      close_files self fs (wakeup_all (some self) woken (record k { world = w }))

  unfoldable pub put_cwd : ℕ → Option ℕ → Kernel W → Kernel W
  put_cwd self none k = k
  put_cwd self (some ip) k =
      let (w, woken) = sv.iput k.world ip in wakeup_all (some self) woken (record k { world = w })

  -- if(p->parent) p->parent->fork_count--;
  unfoldable pub count_exit : Option ℕ → Kernel W → Kernel W
  count_exit none k = k
  count_exit (some q) k =
      put_proc k q (record (k.procs q) { fork_count = dec_ℤ (k.procs q).fork_count })

  -- Everything up to `acquire(&wait_lock)`.
  unfoldable pub release_all : ℕ → Kernel W → Kernel W
  release_all self k =
      let k = close_files self (k.procs self).ofile k in
      let k = put_cwd self (k.procs self).cwd k in
      put_proc k self
        (record (k.procs self) { ofile = closed_files (k.procs self).ofile; cwd = none })

  unfoldable pub become_zombie : ℕ → ℕ → Kernel W → Kernel W
  become_zombie self status k =
      put_proc k self (record (k.procs self) { xstate = status; state = zombie })

  -- The section under `wait_lock`.
  abbrev pub exit_end : ℕ → ℕ → Kernel W → Kernel W
  exit_end self status k =
      let k = reparent self k in
      become_zombie self status (wakeup (some self) (chan_of (k.procs self).parent) k)

  -- The whole of an exit, with nothing of another process in between; `none` is the panic "init
  -- exiting". The count goes down without a lock, and `release_all` may sleep before `wait_lock` is
  -- taken; as steps among those of other processes, `count_exit`, `release_all` and `exit_end` are
  -- three.
  unfoldable pub kexit : ℕ → ℕ → Kernel W → Option (Kernel W)
  kexit self status k =
      let k = count_exit (k.procs self).parent k in
      if is_self k.initproc self then none else some (exit_end self status (release_all self k))
