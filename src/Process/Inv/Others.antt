-- ===== src/Process/Inv/Others.antt =====
-- The calls that change no field the invariant speaks of.
use g14_os_project.Prelude.{
  ℕ, zero, suc, ◌≡◌, refl, inl, inr, Bool, true, false, ◌&&◌, not, some, List, arith, ◌==◌,
  if◌then◌else◌, Bool-cases, Option-cases, ltb, min, add64, ◌-◌, ◌^◌,
}
use g14_os_project.Prelude.Int.{ℤ, pos, negsuc}
use g14_os_project.Process.{Proc, Kernel, Services, is_unused, is_runnable, at_proc, trapframe_va}
use g14_os_project.Process.Table.{is_live, find_proc}
use g14_os_project.Process.Sleep.{yield_cpu, resumed, schedule, kkill, setkilled}
use g14_os_project.Process.Signal.{
  deliver, first_ready, nsig, sys_sigreturn, store_result, sys_signal, ksigsend, sys_sigsend,
}
use g14_os_project.Process.Ipc.{
  take_message, deliver_message, with_message, kipc_send, hand_over, store_message, kipc_recv,
  emptied, max_msg,
}
use g14_os_project.Process.Memory.{growproc, sys_sbrk, sbrk_eager, with_size}
use g14_os_project.Process.Inv.Frame.{
  SameView, SameView-refl, Frame, Frame-put, Frame-refl, Frame-trans, Frame-wakeup,
}
use g14_os_project.Process.Inv.Waits.{Frame-sleep, Frame-world}

module _ {W : Type 0} where
  pub Frame-yield :
      (self : ℕ) (k : Kernel W) → is_live (k.procs self) ≡ true → Frame k (yield_cpu self k)
  unfolding yield_cpu
  Frame-yield self k live = Frame-put k self _ (record {
    used = ground arith;
    live = ground arith;
    pid = refl;
    parent = refl;
    fork_count = refl;
  })

  pub Frame-resumed : (self : ℕ) (k : Kernel W) → Frame k (resumed self k)
  unfolding resumed
  Frame-resumed self k =
      Frame-put k self _
        (record { used = refl; live = refl; pid = refl; parent = refl; fork_count = refl })

  pub Frame-schedule : (i : ℕ) (k : Kernel W) → Frame k (schedule i k).0
  unfolding schedule
  Frame-schedule i k = elim (Bool-cases (is_runnable (k.procs i).state)) [
    | inl ready ↦ rw ready (
        Frame-put k i _ (record {
          used = ground arith;
          live = ground arith;
          pid = refl;
          parent = refl;
          fork_count = refl;
        }))
    | inr other ↦ rw other (Frame-refl k)
  ]

  pub Frame-kkill : (pid : ℕ) (k : Kernel W) → Frame k (kkill pid k).0
  unfolding kkill
  Frame-kkill pid k = elim (Option-cases (find_proc k (λ p. p.pid == pid))) [
    | inl absent ↦ rw (absent, kkill) (Frame-refl k)
    | inr (i, found) ↦
        rw (found, kkill)
          (Frame-put k i _ (record {
            used = ground arith;
            live = ground arith;
            pid = refl;
            parent = refl;
            fork_count = refl;
          }))
  ]

  pub Frame-setkilled : (i : ℕ) (k : Kernel W) → Frame k (setkilled i k)
  unfolding setkilled
  Frame-setkilled i k =
      Frame-put k i _
        (record { used = refl; live = refl; pid = refl; parent = refl; fork_count = refl })

  pub Frame-ksigsend : (pid signum : ℕ) (k : Kernel W) → Frame k (ksigsend pid signum k).0
  unfolding ksigsend
  Frame-ksigsend pid signum k = elim (Option-cases (find_proc k (λ p. p.pid == pid))) [
    | inl absent ↦ rw (absent, ksigsend) (Frame-refl k)
    | inr (i, found) ↦
        rw (found, ksigsend)
          (Frame-put k i _
            (record { used = refl; live = refl; pid = refl; parent = refl; fork_count = refl }))
  ]

  pub Frame-sigsend : (pid : ℕ) (signum : ℤ) (k : Kernel W) → Frame k (sys_sigsend pid signum k).0
  unfolding sys_sigsend
  Frame-sigsend pid (negsuc n) k = Frame-refl k
  Frame-sigsend pid (pos n) k = elim (Bool-cases (ltb n nsig)) [
    | inl known ↦ rw known (Frame-ksigsend pid n k)
    | inr other ↦ rw other (Frame-refl k)
  ]

-- A branch.
Frame-if {ℓ} :
    {A : Type ℓ} {W : Type 0} {k : Kernel W} (b : Bool) (x y : Kernel W × A)
    → Frame k x.0
    → Frame k y.0
    → Frame k (if b then x else y).0
Frame-if true x y fx fy = fx
Frame-if false x y fx fy = fy

pub deliver-SameView : (p : Proc) → SameView p (deliver p)
unfolding deliver
deliver-SameView p = elim (Bool-cases p.handling_signal) [
  | inl busy ↦ simp busy (SameView-refl p)
  | inr idle ↦ simp idle (elim (Option-cases (first_ready p)) [
    | inl quiet ↦ rw (quiet, deliver) (SameView-refl p)
    | inr (i, ready) ↦
        rw (ready, deliver)
          (record { used = refl; live = refl; pid = refl; parent = refl; fork_count = refl })
  ])
]

pub sigreturn-SameView : (p : Proc) → SameView p (store_result (sys_sigreturn p))
unfolding sys_sigreturn
sigreturn-SameView p = record {
  used = refl;
  live = refl;
  pid = refl;
  parent = refl;
  fork_count = refl;
}

pub signal-SameView :
    (signum : ℤ) (handler : ℕ) (p : Proc) → SameView p (sys_signal signum handler p).0
unfolding sys_signal
signal-SameView (negsuc n) handler p = SameView-refl p
signal-SameView (pos n) handler p = elim (Bool-cases (ltb n nsig)) [
  | inl known ↦
      rw known (record { used = refl; live = refl; pid = refl; parent = refl; fork_count = refl })
  | inr other ↦ rw other (SameView-refl p)
]

module _ {W : Type 0} (sv : Services W) where
  pub Frame-deliver_message :
      (self pid : ℕ) (msg : List ℕ) (n : ℕ) (k : Kernel W)
      → Frame k (deliver_message sv self pid msg n k).0
  unfolding deliver_message
  Frame-deliver_message self pid msg n k =
      elim (Option-cases (find_proc k (λ p. p.pid == pid && not (is_unused p.state)))) [
        | inl absent ↦ rw (absent, deliver_message) (Frame-refl k)
        | inr (i, found) ↦
            rw (found, deliver_message)
              (elim (Bool-cases (k.procs i).ipc_ready) [
                | inl occupied ↦ rw occupied (Frame-refl k)
                | inr vacant ↦ rw vacant (
                    Frame-trans
                      (Frame-put k i (with_message sv msg n (k.procs i)) (record {
                        used = refl;
                        live = refl;
                        pid = refl;
                        parent = refl;
                        fork_count = refl;
                      }))
                      (Frame-wakeup (some self) (at_proc i) _))
              ])
      ]

  pub Frame-take_message :
      (self src n : ℕ) (k : Kernel W) → Frame k (take_message sv self src n k).0
  unfolding take_message
  Frame-take_message self src n k = elim (Bool-cases (n == 0)) [
    | inl nothing ↦ rw nothing (Frame-refl k)
    | inr some_bytes ↦ rw some_bytes (Frame-world k _)
  ]

  pub Frame-kipc_send :
      (self pid src : ℕ) (n : ℤ) (k : Kernel W) → Frame k (kipc_send sv self pid src n k).0
  unfolding kipc_send
  Frame-kipc_send self pid src (negsuc n) k = Frame-refl k
  Frame-kipc_send self pid src (pos n) k =
      let taken = take_message sv self src (min n max_msg) k in
      elim (Option-cases taken.1) [
        | inl fault ↦ rw (fault, kipc_send) (Frame-take_message self src (min n max_msg) k)
        | inr (msg, got) ↦
            rw (got, kipc_send)
              (Frame-trans (Frame-take_message self src (min n max_msg) k)
                (Frame-deliver_message self pid msg (min n max_msg) taken.0))
      ]

  pub Frame-hand_over : (self dst n : ℕ) (k : Kernel W) → Frame k (hand_over sv self dst n k).0
  unfolding hand_over
  Frame-hand_over self dst n k =
      let o = store_message sv self dst (min (k.procs self).ipc_len n) k in
      Frame-if o.1 _ _
        (Frame-trans (Frame-world k o.0) (
          Frame-put (record k { world = o.0 }) self (emptied sv (k.procs self))
            (record { used = refl; live = refl; pid = refl; parent = refl; fork_count = refl })))
        (Frame-world k o.0)

  pub Frame-kipc_recv :
      (self dst : ℕ) (n : ℤ) (k : Kernel W)
      → is_live (k.procs self) ≡ true
      → Frame k (kipc_recv sv self dst n k).0
  unfolding kipc_recv
  Frame-kipc_recv self dst (negsuc n) k live = Frame-refl k
  Frame-kipc_recv self dst (pos n) k live =
      Frame-if (k.procs self).ipc_ready _ _ (Frame-hand_over self dst n k)
        (Frame-if (k.procs self).killed _ _ (Frame-refl k) (Frame-sleep self (at_proc self) live))

  Frame-size :
      (self sz : ℕ) (w : W) (k : Kernel W) → Frame k (with_size self sz (record k { world = w }))
  Frame-size self sz w k = Frame-trans (Frame-world k w) (
      Frame-put (record k { world = w }) self _
        (record { used = refl; live = refl; pid = refl; parent = refl; fork_count = refl }))

  pub Frame-growproc : (self : ℕ) (n : ℤ) (k : Kernel W) → Frame k (growproc sv self n k).0
  unfolding growproc
  Frame-growproc self (negsuc n) k =
      let p = k.procs self in
      let o = sv.uvmdealloc k.world p.pagetable p.sz (add64 p.sz (2 ^ 64 - suc n)) in
      Frame-size self o.1 o.0 k
  Frame-growproc self (pos zero) k = Frame-refl k
  Frame-growproc self (pos (suc n)) k =
      let p = k.procs self in
      let newsz = add64 p.sz (suc n) in
      let o = sv.uvmalloc k.world p.pagetable p.sz newsz in
      Frame-if (ltb trapframe_va newsz) _ _ (Frame-refl k)
        (Frame-if (o.1 == 0) _ _ (Frame-world k o.0) (Frame-size self o.1 o.0 k))

  pub Frame-sys_sbrk :
      (self : ℕ) (n : ℤ) (t : ℕ) (k : Kernel W) → Frame k (sys_sbrk sv self n t k).0
  unfolding sys_sbrk
  Frame-sys_sbrk self (negsuc n) t k = Frame-growproc self (negsuc n) k
  Frame-sys_sbrk self (pos n) t k =
      let addr = (k.procs self).sz in
      Frame-if (t == sbrk_eager) _ _ (Frame-growproc self (pos n) k) (
        Frame-if (ltb (add64 addr n) addr) _ _ (Frame-refl k) (
          Frame-if (ltb trapframe_va (add64 addr n)) _ _ (Frame-refl k)
            (Frame-size self (add64 addr n) k.world k)))
