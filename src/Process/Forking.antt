-- ===== src/Process/Forking.antt =====
-- What `kfork` and `thread_fork` do, by the result they return.
use g14_os_project.Prelude.{ℕ, ◌≡◌, ◌≢◌, true, some}
use g14_os_project.Prelude.Int.{ℤ, pos, negsuc, inc_ℤ, ltb_ℤ}
use g14_os_project.Process.{Proc, Kernel, Trapframe, is_unused, runnable}
use g14_os_project.Process.Table.{is_live}
use g14_os_project.Process.Fork.{max_children}
use g14_os_project.Process.Inv.Frame.{SameView}

-- `np` is the entry of a child of `self`, whose entry is `p`, with the registers `regs`.
pub record IsChild (self pid : ℕ) (p : Proc) (regs : Trapframe) (np : Proc) : Type 0 where
  pub state : np.state ≡ runnable
  pub parent : np.parent ≡ some self
  pub pid_is : np.pid ≡ pid
  pub childless : np.fork_count ≡ pos 0
  pub trapframe : np.trapframe ≡ regs
  pub sz : np.sz ≡ p.sz
  pub cwd : np.cwd ≡ p.cwd

-- The table `after` has the child `i` of `self` besides what `k` has.
pub record Begot {W : Type 0} (self i : ℕ) (regs : Trapframe → Trapframe) (k : Kernel W)
    (after : ℕ → Proc) : Type 0 where
  pub was_free : is_unused (k.procs i).state ≡ true
  pub child : IsChild self k.nextpid (k.procs self) (regs (k.procs self).trapframe) (after i)
  pub parent : after self ≡ record (k.procs self) { fork_count = inc_ℤ (k.procs self).fork_count }
  pub others : (j : ℕ) → j ≢ i → j ≢ self → after j ≡ k.procs j

-- A refusal changes no live entry's state, pid, parent or count of children.
pub record Barren {W : Type 0} (k k' : Kernel W) : Type 0 where
  pub kept : (j : ℕ) → is_live (k.procs j) ≡ true → SameView (k.procs j) (k'.procs j)

module _ {W : Type 0} (self : ℕ) (regs : Trapframe → Trapframe) (k : Kernel W) where
  abbrev pub ForkOutcome : Kernel W × ℤ → Type 0
  ForkOutcome (k', pos n) =
      (ltb_ℤ (k.procs self).fork_count (pos max_children) ≡ true)
      × (n ≡ k.nextpid)
      × (i : ℕ) × Begot self i regs k k'.procs
  ForkOutcome (k', negsuc n) = (n ≡ 0) × Barren k k'
