-- ===== src/Process/Exiting.antt =====
-- What `kexit` does.
use g14_os_project.Prelude.{
  ℕ, ◌≡◌, refl, ◌≢◌, inl, inr, true, none, some, Option, arith, ◌==◌, Option-cases,
}
use g14_os_project.Process.{Kernel, Services, zombie}
use g14_os_project.Process.Table.{is_live}
use g14_os_project.Process.Exit.{kexit, become_zombie}
use g14_os_project.Process.Inv.Deaths.{Exited}
use g14_os_project.Process.Inv.Exits.{
  stages-Ended, stages-counts, kexit-Stages, kexit-ne-init, count_exit-initproc,
}

module _ {W : Type 0} (self status init : ℕ) (k : Kernel W) where
  -- `none` stands for the panic.
  abbrev pub ExitOutcome : Option (Kernel W) → Type 0
  ExitOutcome none = self ≡ init
  ExitOutcome (some k') =
      (self ≢ init)
      × ((k'.procs self).state ≡ zombie)
      × ((k'.procs self).xstate ≡ status)
      × Exited k.procs k'.procs self init

module _ {W : Type 0} (sv : Services W) (self status init : ℕ) (k : Kernel W) where
  zombie_status :
      (k : Kernel W)
      → (((become_zombie sv self status k).procs self).state ≡ zombie)
        × (((become_zombie sv self status k).procs self).xstate ≡ status)
  unfolding become_zombie
  zombie_status k = let hit : (self == self) ≡ true = ground arith in rw hit (refl, refl)

  panic-init : k.initproc ≡ some init → kexit sv self status k ≡ none → self ≡ init
  unfolding kexit
  panic-init is_init e = ground (arith, count_exit-initproc sv self k)

  -- `exit` panics for init only. Any other live process becomes a zombie with its status; all its
  -- children, the dead ones too, become init's; its parent's `fork_count` goes down by one; and no
  -- other entry's pid, parent, count or being in use or alive changes.
  pub kexit-ExitOutcome :
      k.initproc ≡ some init
      → is_live (k.procs self) ≡ true
      → ExitOutcome self status init k (kexit sv self status k)
  kexit-ExitOutcome is_init live = elim (Option-cases (kexit sv self status k)) [
    | inl panics ↦ rw panics (panic-init is_init panics)
    | inr (k', e) ↦
        let s = kexit-Stages sv self status e in
        rw (e, s.result)
          (
            kexit-ne-init sv self k status init is_init e,
            (zombie_status s.woken).0,
            (zombie_status s.woken).1,
            record {
              ended = stages-Ended sv self s init is_init live;
              fork_count = stages-counts sv self s init is_init live;
            },
          )
  ]
