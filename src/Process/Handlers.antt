-- ===== src/Process/Handlers.antt =====
-- Signals: what `sys_sigsend` sets, and a handler's run from its delivery to `sigreturn`.
use g14_os_project.Prelude.{
  ℕ, ◌<◌, ◌≡◌, refl, ap, sym, true, false, some, arith, ◌==◌, ltb, if◌then◌else◌,
}
use g14_os_project.Prelude.Int.{pos}
use g14_os_project.Prelude.Bits.{set_bit, clear_bit, test_bit, test_bit-set_bit}
use g14_os_project.Prelude.Table.{update}
use g14_os_project.Process.{Proc, Kernel, Trapframe, nproc, is_unused}
use g14_os_project.Process.Signal.{
  nsig, handler_of, is_ready, first_ready, enter_handler, deliver, sys_sigreturn, store_result,
  ksigsend, sys_sigsend,
}
use g14_os_project.Process.Inv.{IsValid}
use g14_os_project.Process.Lookup.{find_from-first, find_pid}

deliver-enter_handler :
    (p : Proc) (i : ℕ)
    → p.handling_signal ≡ false
    → i < nsig
    → is_ready p i ≡ true
    → ((j : ℕ) → j < i → is_ready p j ≡ false)
    → deliver p ≡ enter_handler i p
unfolding deliver
deliver-enter_handler p i idle lt ready early =
    let found : first_ready p ≡ some i =
      find_from-first (is_ready p) (λ j. j) nsig i lt ready early in
    rw (idle, found)

deliver_nested : (p : Proc) → p.handling_signal ≡ true → deliver p ≡ p
unfolding deliver
deliver_nested p busy = rw busy refl

-- The signal that a process outside a handler enters is the lowest of its pending ones that have a
-- handler, and it starts at that handler. Whatever registers `t` the handler leaves, no signal is
-- delivered on top of it, and its `sigreturn` restores every register of the interrupted code; of
-- the entry, the signal's pending bit and the saved copy of the registers are all that changed.
pub handler_roundtrip :
    (p : Proc) (t : Trapframe) (i : ℕ)
    → p.handling_signal ≡ false
    → i < nsig
    → is_ready p i ≡ true
    → ((j : ℕ) → j < i → is_ready p j ≡ false)
    → ((deliver p).trapframe.epc ≡ handler_of p i)
      × (deliver (record (deliver p) { trapframe = t }) ≡ record (deliver p) { trapframe = t })
      × (store_result (sys_sigreturn (record (deliver p) { trapframe = t })) ≡ record p {
        pending_signals = clear_bit p.pending_signals i;
        saved_trapframe = p.trapframe;
      })
unfolding sys_sigreturn
handler_roundtrip p t i idle lt ready early =
    let entered = deliver-enter_handler p i idle lt ready early in
    rw entered (
      refl,
      deliver_nested (record (enter_handler i p) { trapframe = t }) refl,
      ap
          (λ b. record p {
            pending_signals = clear_bit p.pending_signals i;
            saved_trapframe = p.trapframe;
            handling_signal = b;
          })
          (sym idle),
    )

module _ {W : Type 0} (k : Kernel W) (v : IsValid k) (i signum : ℕ) (lt : i < nproc)
    (used : is_unused (k.procs i).state ≡ false) (h : signum < nsig) where
  -- A signal below 32 sent to the pid of a process of a valid table is accepted; of the process,
  -- exactly that bit of the pending signals gets set, and no other entry changes.
  pub sys_sigsend_lem :
      (sys_sigsend (k.procs i).pid (pos signum) k ≡ (
        record k {
          procs =
              update k.procs i (record (k.procs i) {
                pending_signals = set_bit (k.procs i).pending_signals signum;
              });
        },
        pos 0,
      ))
      × ((j : ℕ)
          → test_bit (set_bit (k.procs i).pending_signals signum) j
            ≡ (if signum == j then true else test_bit (k.procs i).pending_signals j))
  unfolding sys_sigsend ksigsend
  sys_sigsend_lem =
      let small : ltb signum nsig ≡ true = ground arith in
      (
        (rw (small, ksigsend, find_pid v i lt used) refl),
        test_bit-set_bit (k.procs i).pending_signals signum,
      )
