-- ===== src/Process/Signal.antt =====
-- Signals: `sys_signal`, `sys_sigsend` and `sys_sigreturn` of sysproc.c, `ksigsend` of proc.c, and
-- the delivery in `usertrap` of trap.c.
use g14_os_project.Prelude.{
  ℕ, Bool, true, false, ◌&&◌, not, Option, none, some, ◌==◌, ltb, if◌then◌else◌, get_or, set,
}
use g14_os_project.Prelude.Int.{ℤ, pos, negsuc, minus_one}
use g14_os_project.Prelude.Table.{find_from}
use g14_os_project.Prelude.Bits.{test_bit, set_bit, clear_bit}
use g14_os_project.Process.{Proc, Kernel}
use g14_os_project.Process.Table.{put_proc, find_proc}
use g14_os_project.Process.Alloc.{no_handler}

-- NSIG
abbrev pub nsig : ℕ
nsig = 32

abbrev pub handler_of : Proc → ℕ → ℕ
handler_of p i = get_or p.signal_handlers i no_handler

-- p->pending_signals & (1 << i), with a handler that is not -1.
abbrev pub is_ready : Proc → ℕ → Bool
is_ready p i = test_bit p.pending_signals i && not (handler_of p i == no_handler)

-- The first signal on which the loop breaks off.
abbrev pub first_ready : Proc → Option ℕ
first_ready p = find_from (is_ready p) (λ i. i) nsig 0

abbrev pub enter_handler : ℕ → Proc → Proc
enter_handler i p = record p {
  pending_signals = clear_bit p.pending_signals i;
  saved_trapframe = p.trapframe;
  trapframe = record (p.trapframe) { epc = handler_of p i };
  handling_signal = true;
}

-- The last part of `usertrap` before `prepare_return`.
unfoldable pub deliver : Proc → Proc
deliver p =
    if p.handling_signal then p else elim (first_ready p) [ none ↦ p | some i ↦ enter_handler i p ]

-- The restored entry, and the value that `syscall` stores into `a0`.
unfoldable pub sys_sigreturn : Proc → Proc × ℕ
sys_sigreturn p =
    (record p { trapframe = p.saved_trapframe; handling_signal = false }, p.saved_trapframe.a0)

-- p->trapframe->a0 = syscalls[num]();
abbrev pub store_result : Proc × ℕ → Proc
store_result (p, r) = record p { trapframe = record (p.trapframe) { a0 = r } }

unfoldable pub sys_signal : (signum : ℤ) (handler : ℕ) → Proc → Proc × ℤ
sys_signal (negsuc n) handler p = (p, minus_one)
sys_signal (pos n) handler p =
    if ltb n nsig
    then (record p { signal_handlers = set p.signal_handlers n handler }, pos 0)
    else (p, minus_one)

module _ {W : Type 0} where
  unfoldable pub ksigsend : (pid signum : ℕ) → Kernel W → Kernel W × ℤ
  ksigsend pid signum k = elim (find_proc k (λ p. p.pid == pid)) [
    | none ↦ (k, minus_one)
    | some i ↦
        let p = k.procs i in
        (put_proc k i (record p { pending_signals = set_bit p.pending_signals signum }), pos 0)
  ]

  unfoldable pub sys_sigsend : (pid : ℕ) (signum : ℤ) → Kernel W → Kernel W × ℤ
  unfolding ksigsend
  sys_sigsend pid (negsuc n) k = (k, minus_one)
  sys_sigsend pid (pos n) k = if ltb n nsig then ksigsend pid n k else (k, minus_one)
