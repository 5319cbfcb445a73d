-- ===== src/Process/Inv.antt =====
-- The invariant of the process table.
pub mod Frame
pub mod Births
pub mod Deaths
pub mod Forks
pub mod Waits
pub mod Reparent
pub mod Exits
pub mod Others
pub mod Boot
pub mod Steps
use g14_os_project.Prelude.{ℕ, ◌<◌, ◌≡◌, true, false, none, some}
use g14_os_project.Prelude.Table.{count_below}
use g14_os_project.Process.{Proc, Kernel, nproc, is_unused}
use g14_os_project.Process.Table.{is_live, live_child_of}

-- How many living children entry `q` has.
abbrev pub children : ℕ → (ℕ → Proc) → ℕ
children q procs = count_below (live_child_of q) procs nproc

-- A free entry has no pid and no parent; pids in use are distinct and below `nextpid`; init and every
-- parent live. Nothing is said of `fork_count`, which the calls change outside of any lock.
pub record TableValid (procs : ℕ → Proc) (nextpid init : ℕ) : Type 0 where
  pub init_in : init < nproc
  pub init_live : is_live (procs init) ≡ true
  pub free :
      (i : ℕ)
      → i < nproc
      → is_unused (procs i).state ≡ true
      → ((procs i).pid ≡ 0) × ((procs i).parent ≡ none)
  pub numbered :
      (i : ℕ)
      → i < nproc
      → is_unused (procs i).state ≡ false
      → (0 < (procs i).pid) × ((procs i).pid < nextpid)
  pub unique :
      (i j : ℕ)
      → i < nproc
      → j < nproc
      → is_unused (procs i).state ≡ false
      → is_unused (procs j).state ≡ false
      → (procs i).pid ≡ (procs j).pid
      → i ≡ j
  pub parents :
      (i q : ℕ) → i < nproc → (procs i).parent ≡ some q → (q < nproc) × (is_live (procs q) ≡ true)

pub record IsValid {W : Type 0} (k : Kernel W) : Type 0 where
  pub init : ℕ
  pub is_init : k.initproc ≡ some init
  pub table : TableValid k.procs k.nextpid init
