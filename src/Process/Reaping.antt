-- ===== src/Process/Reaping.antt =====
-- What a round of `kwait` does, by what the table holds.
use g14_os_project.Prelude.{
  ℕ, ◌<◌, ◌≡◌, ◌≢◌, ◌⊎◌, inl, inr, Bool, true, false, ◌&&◌, ◌==◌, arith, Bool-cases, Option-cases,
}
use g14_os_project.Prelude.Int.{pos, minus_one}
use g14_os_project.Prelude.Table.{
  IsFirst, find_from-IsFirst, find_from-none, update_self, update_ne,
}
use g14_os_project.Process.{Proc, Kernel, Services, nproc, is_zombie, at_proc}
use g14_os_project.Process.Table.{find_proc, has_parent}
use g14_os_project.Process.Alloc.{freeproc, cleared}
use g14_os_project.Process.Sleep.{sleep_on}
use g14_os_project.Process.Wait.{
  Round, done, asleep, le_bytes, store_status, reap, wait_more, kwait,
}

-- A child of `self` that has exited.
abbrev pub dead_child : ℕ → Proc → Bool
dead_child self p = has_parent self p && is_zombie p.state

module _ {W : Type 0} (sv : Services W) (self addr : ℕ) (k : Kernel W) where
  -- The copy of the four bytes of a child's status to the caller's memory at `addr`.
  abbrev pub status_copy : ℕ → W × Bool
  status_copy i = sv.copyout k.world (k.procs self).pagetable addr (le_bytes 4 (k.procs i).xstate)

  -- How a round of `kwait` may end.
  pub data Waited : Kernel W × Round → Type 0 where
    -- No status is asked for, or it is stored: the first zombie child's entry is freed, its pid
    -- returned.
    reaped :
        (i : ℕ) (k' : Kernel W)
        → IsFirst (dead_child self) k.procs 0 nproc i
        → (addr ≡ 0) ⊎ ((status_copy i).1 ≡ true)
        → k'.procs i ≡ cleared (k.procs i)
        → ((j : ℕ) → j ≢ i → k'.procs j ≡ k.procs j)
        → Waited (k', done (pos (k.procs i).pid))
    -- There is a zombie child, but its status could not be stored: it stays.
    unstored :
        (i : ℕ)
        → IsFirst (dead_child self) k.procs 0 nproc i
        → addr ≢ 0
        → (status_copy i).1 ≡ false
        → Waited (record k { world = (status_copy i).0 }, done minus_one)
    childless :
        ((j : ℕ) → j < nproc → has_parent self (k.procs j) ≡ false) → Waited (k, done minus_one)
    interrupted :
        ((j : ℕ) → j < nproc → dead_child self (k.procs j) ≡ false)
        → (k.procs self).killed ≡ true
        → Waited (k, done minus_one)
    -- All children live, and the process is not killed: it sleeps on its own entry, where
    -- `kexit` wakes it.
    waiting :
        (i : ℕ)
        → i < nproc
        → has_parent self (k.procs i) ≡ true
        → ((j : ℕ) → j < nproc → dead_child self (k.procs j) ≡ false)
        → (k.procs self).killed ≡ false
        → Waited (sleep_on self (at_proc self) k, asleep)

module _ {W : Type 0} (sv : Services W) (trampoline_page forkret : ℕ) where
  freed_here :
      (i : ℕ) (k : Kernel W) (w : W)
      → ((freeproc sv trampoline_page forkret i (record k { world = w })).procs i
          ≡ cleared (k.procs i))
        × ((j : ℕ)
            → j ≢ i
            → (freeproc sv trampoline_page forkret i (record k { world = w })).procs j ≡ k.procs j)
  unfolding freeproc
  freed_here i k w = (
    update_self k.procs i (cleared (k.procs i)),
    λ j ne. update_ne k.procs i j (cleared (k.procs i)) ne,
  )

  reap-Waited :
      (self i addr : ℕ) (k : Kernel W)
      → IsFirst (dead_child self) k.procs 0 nproc i
      → Waited sv self addr k (reap sv trampoline_page forkret self i addr k)
  unfolding reap store_status
  reap-Waited self i addr k first =
      let copied = status_copy sv self addr k i in
      elim (Bool-cases (addr == 0)) [
        | inl null ↦
            let freed = freed_here i k k.world in
            rw (reap, store_status, null) (reaped i _ first (inl (ground arith)) freed.0 freed.1)
        | inr given ↦ elim (Bool-cases copied.1) [
          | inl stored ↦
              let freed = freed_here i k copied.0 in
              rw (reap, store_status, given, stored) (reaped i _ first (inr stored) freed.0 freed.1)
          | inr failed ↦
              rw (reap, store_status, given, failed) (unstored i first (ground arith) failed)
        ]
      ]

  -- A round of `kwait` frees the first zombie child and returns its pid when no status is asked for or
  -- `copyout` stores it, and leaves the child and returns -1 when `copyout` fails; without a zombie
  -- child it returns -1 if there is no child or the caller is killed, and sleeps otherwise. It changes
  -- nothing else of the table.
  pub kwait-Waited :
      (self addr : ℕ) (k : Kernel W)
      → Waited sv self addr k (kwait sv trampoline_page forkret self addr k)
  unfolding kwait wait_more
  kwait-Waited self addr k = elim (Option-cases (find_proc k (dead_child self))) [
    | inr (i, found) ↦
        rw (found, kwait)
          (reap-Waited self i addr k (find_from-IsFirst (dead_child self) k.procs nproc 0 i found))
    | inl none_dead ↦
        let alive : (j : ℕ) → j < nproc → dead_child self (k.procs j) ≡ false =
          λ j lt. find_from-none (dead_child self) k.procs nproc 0 j none_dead (omega arith) lt in
        rw (none_dead, kwait)
          (elim (Option-cases (find_proc k (has_parent self))) [
            | inl none_at_all ↦ rw none_at_all (
                childless (λ j lt.
                  find_from-none (has_parent self) k.procs nproc 0 j none_at_all (omega arith) lt))
            | inr (i, child) ↦
                let first = find_from-IsFirst (has_parent self) k.procs nproc 0 i child in
                rw child (elim (Bool-cases (k.procs self).killed) [
                  | inl dead ↦ rw dead (interrupted alive dead)
                  | inr fine ↦ rw fine (waiting i first.below first.passes alive fine)
                ])
          ])
  ]
