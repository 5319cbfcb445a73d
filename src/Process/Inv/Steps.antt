-- ===== src/Process/Inv/Steps.antt =====
-- Everything that changes the table, as a step relation, and the invariant of every reachable state.
use g14_os_project.Prelude.{
  ℕ, ◌+◌, ◌^◌, ◌<◌, ◌≡◌, ◌≢◌, refl, subst, sym, true, false, Option, arith, inl, inr, ◌==◌,
  Bool-cases,
}
use g14_os_project.Prelude.Int.{ℤ}
use g14_os_project.Process.{Kernel, Services, Trapframe, Chan, nproc, running}
use g14_os_project.Process.Table.{is_live, put_proc}
use g14_os_project.Process.Sleep.{sleep_on, resumed, yield_cpu, schedule, kkill, setkilled, wakeup}
use g14_os_project.Process.Fork.{fork_with}
use g14_os_project.Process.Exit.{is_self, release_all, exit_end}
use g14_os_project.Process.Wait.{kwait, kwaitpid}
use g14_os_project.Process.Signal.{deliver, sys_sigreturn, store_result, sys_signal, sys_sigsend}
use g14_os_project.Process.Ipc.{kipc_send, kipc_recv}
use g14_os_project.Process.Memory.{sys_sbrk}
use g14_os_project.Process.Inv.{IsValid}
use g14_os_project.Process.Inv.Frame.{
  TableValid-life, Frame, Frame-IsValid, Frame-put, Frame-wakeup,
}
use g14_os_project.Process.Inv.Forks.{fork_with-IsValid}
use g14_os_project.Process.Inv.Waits.{Frame-sleep, Frame-world, kwait-IsValid, kwaitpid-IsValid}
use g14_os_project.Process.Inv.Exits.{exit_end-IsValid}
use g14_os_project.Process.Inv.Reparent.{Frame-release_all}
use g14_os_project.Process.Inv.Others.{
  Frame-yield, Frame-resumed, Frame-schedule, Frame-kkill, Frame-setkilled, Frame-sigsend,
  deliver-SameView, sigreturn-SameView, signal-SameView, Frame-kipc_send, Frame-kipc_recv,
  Frame-sys_sbrk,
}

-- `self` is a process that a CPU runs.
pub record Runs {W : Type 0} (self : ℕ) (k : Kernel W) : Type 0 where
  pub within : self < nproc
  pub now : (k.procs self).state ≡ running

Runs-live : {W : Type 0} {self : ℕ} {k : Kernel W} → Runs self k → is_live (k.procs self) ≡ true
Runs-live r = ground arith

recounted-IsValid :
    {W : Type 0} (k : Kernel W) (q : ℕ) (n : ℤ)
    → IsValid k
    → IsValid (put_proc k q (record (k.procs q) { fork_count = n }))
recounted-IsValid k q n v = record {
  init = v.init;
  is_init = v.is_init;
  table =
      TableValid-life
        (λ j. elim (Bool-cases (q == j)) [
          | inl hit ↦
              let same : q ≡ j = ground arith in
              rw (hit, same) (record { used = refl; live = refl; pid = refl; parent = refl })
          | inr miss ↦ rw miss (record { used = refl; live = refl; pid = refl; parent = refl })
        ])
        v.table;
}

module _ {W : Type 0} (sv : Services W) (trampoline_page forkret : ℕ) where
  -- One call, or one section of a call that sleeps, of some process, of the scheduler or of an
  -- interrupt; `others` is whatever the rest of the kernel does to its own state. A fork needs a
  -- pid that an `int` can hold.
  pub data Step (k k' : Kernel W) : Type 0 where
    forks :
        (self : ℕ) (regs : Trapframe → Trapframe)
        → Runs self k
        → k.nextpid + 1 < 2 ^ 31
        → k' ≡ (fork_with sv trampoline_page forkret regs self k).0
        → Step k k'
    -- The `fork_count++` of a fork and the `fork_count--` of an exit are outside of any lock: a count
    -- may change at any time, to anything.
    recounts :
        (q : ℕ) (n : ℤ) → k' ≡ put_proc k q (record (k.procs q) { fork_count = n }) → Step k k'
    -- An exit, behind its count: the files and the directory are given back, and later, under
    -- `wait_lock`, the process becomes a zombie.
    releases : (self : ℕ) → Runs self k → k' ≡ release_all sv self k → Step k k'
    exits :
        (self status : ℕ)
        → Runs self k
        → is_self k.initproc self ≡ false
        → k' ≡ exit_end sv self status k
        → Step k k'
    waits :
        (self addr : ℕ)
        → Runs self k
        → k' ≡ (kwait sv trampoline_page forkret self addr k).0
        → Step k k'
    waits_for :
        (self pid addr : ℕ)
        → Runs self k
        → k' ≡ (kwaitpid sv trampoline_page forkret self pid addr k).0
        → Step k k'
    sends :
        (self pid src : ℕ) (n : ℤ)
        → Runs self k
        → k' ≡ (kipc_send sv self pid src n k).0
        → Step k k'
    receives : (self dst : ℕ) (n : ℤ) → Runs self k → k' ≡ (kipc_recv sv self dst n k).0 → Step k k'
    resizes : (self : ℕ) (n : ℤ) (t : ℕ) → Runs self k → k' ≡ (sys_sbrk sv self n t k).0 → Step k k'
    kills : (pid : ℕ) → k' ≡ (kkill pid k).0 → Step k k'
    dooms : (i : ℕ) → k' ≡ setkilled i k → Step k k'
    signals : (pid : ℕ) (signum : ℤ) → k' ≡ (sys_sigsend pid signum k).0 → Step k k'
    registers :
        (self : ℕ) (signum : ℤ) (handler : ℕ)
        → k' ≡ put_proc k self (sys_signal signum handler (k.procs self)).0
        → Step k k'
    delivers : (self : ℕ) → k' ≡ put_proc k self (deliver (k.procs self)) → Step k k'
    sigreturns :
        (self : ℕ) → k' ≡ put_proc k self (store_result (sys_sigreturn (k.procs self))) → Step k k'
    yields : (self : ℕ) → Runs self k → k' ≡ yield_cpu self k → Step k k'
    sleeps : (self : ℕ) (c : Chan) → Runs self k → k' ≡ sleep_on self c k → Step k k'
    resumes : (self : ℕ) → k' ≡ resumed self k → Step k k'
    schedules : (i : ℕ) → k' ≡ (schedule i k).0 → Step k k'
    wakes : (self : Option ℕ) (c : Chan) → k' ≡ wakeup self c k → Step k k'
    others : (w : W) → k' ≡ record k { world = w } → Step k k'

  pub data Reach (k : Kernel W) : Kernel W → Type 0 where
    here : Reach k k
    next : {a b : Kernel W} → Reach k a → Step a b → Reach k b

  Step-IsValid : {k k' : Kernel W} → Step k k' → IsValid k → IsValid k'
  Step-IsValid {k} s v = kept s
    where
      by_frame : {k' a : Kernel W} → k' ≡ a → Frame k a → IsValid k'
      by_frame e f = subst IsValid (sym e) (Frame-IsValid f v)

      kept : {k' : Kernel W} → Step k k' → IsValid k'
      kept (forks self regs r h e) =
          subst IsValid (sym e) (
            fork_with-IsValid sv trampoline_page forkret regs v (omega arith) r.within
              (Runs-live r))
      kept (recounts q n e) = subst IsValid (sym e) (recounted-IsValid k q n v)
      kept (releases self r e) = by_frame e (Frame-release_all sv self k)
      kept (exits self status r other e) =
          let ne : self ≢ v.init = λ same. ground (arith, v.is_init) in
          subst IsValid (sym e) (exit_end-IsValid sv self status v ne (Runs-live r))
      kept (waits self addr r e) =
          subst IsValid (sym e) (kwait-IsValid sv trampoline_page forkret self addr (Runs-live r) v)
      kept (waits_for self pid addr r e) =
          subst IsValid (sym e)
            (kwaitpid-IsValid sv trampoline_page forkret self pid addr (Runs-live r) v)
      kept (sends self pid src n r e) = by_frame e (Frame-kipc_send sv self pid src n k)
      kept (receives self dst n r e) = by_frame e (Frame-kipc_recv sv self dst n k (Runs-live r))
      kept (resizes self n t r e) = by_frame e (Frame-sys_sbrk sv self n t k)
      kept (kills pid e) = by_frame e (Frame-kkill pid k)
      kept (dooms i e) = by_frame e (Frame-setkilled i k)
      kept (signals pid signum e) = by_frame e (Frame-sigsend pid signum k)
      kept (registers self signum handler e) =
          by_frame e (Frame-put k self _ (signal-SameView signum handler (k.procs self)))
      kept (delivers self e) = by_frame e (Frame-put k self _ (deliver-SameView (k.procs self)))
      kept (sigreturns self e) = by_frame e (Frame-put k self _ (sigreturn-SameView (k.procs self)))
      kept (yields self r e) = by_frame e (Frame-yield self k (Runs-live r))
      kept (sleeps self c r e) = by_frame e (Frame-sleep self c (Runs-live r))
      kept (resumes self e) = by_frame e (Frame-resumed self k)
      kept (schedules i e) = by_frame e (Frame-schedule i k)
      kept (wakes self c e) = by_frame e (Frame-wakeup self c k)
      kept (others w e) = by_frame e (Frame-world k w)

  -- The invariant of the process table, that free entries have no pid and no parent, that the pids in
  -- use are distinct and below `nextpid`, and that init and every parent live, holds in every state that
  -- the steps of any processes reach from a state in which it holds, in any order, with any interrupts
  -- and scheduling, and whatever the `fork_count`s become.
  pub Reach-IsValid : {k k' : Kernel W} → IsValid k → Reach k k' → IsValid k'
  Reach-IsValid v here = v
  Reach-IsValid v (next r s) = Step-IsValid s (Reach-IsValid v r)
