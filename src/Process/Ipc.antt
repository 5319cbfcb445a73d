-- ===== src/Process/Ipc.antt =====
-- proc.c: `kipc_send`, and one round of `kipc_recv`, each under `wait_lock`.
use g14_os_project.Prelude.{
  ℕ, Bool, true, false, ◌&&◌, not, Option, none, some, List, [], ◌++◌, ◌==◌, if◌then◌else◌, take,
  drop, min,
}
use g14_os_project.Prelude.Int.{ℤ, pos, negsuc, minus_one}
use g14_os_project.Process.{Proc, Kernel, Services, at_proc, is_unused}
use g14_os_project.Process.Table.{put_proc, find_proc}
use g14_os_project.Process.Sleep.{wakeup, sleep_on}
use g14_os_project.Process.Wait.{Round, done, asleep}

-- IPC_MAX_MSG
abbrev pub max_msg : ℕ
max_msg = 64

module _ {W : Type 0} (sv : Services W) where
  -- copyin of the message; with no byte to copy there is no call.
  unfoldable pub take_message : (self src n : ℕ) → Kernel W → Kernel W × Option (List ℕ)
  take_message self src n k =
      if n == 0
      then (k, some [])
      else (let (w, msg) = sv.copyin k.world (k.procs self).pagetable src n in
          (record k { world = w }, msg))

  -- The entry with the message stored: memmove over the start of `ipc_msg`.
  abbrev pub with_message : List ℕ → ℕ → Proc → Proc
  with_message msg n p = record p {
    ipc_msg = msg ++ drop n p.ipc_msg;
    ipc_len = n;
    ipc_ready = true;
  }

  unfoldable pub deliver_message : (self pid : ℕ) → List ℕ → ℕ → Kernel W → Kernel W × ℤ
  deliver_message self pid msg n k =
      elim (find_proc k (λ p. p.pid == pid && not (is_unused p.state))) [
        | none ↦ (k, minus_one)
        | some i ↦ if (k.procs i).ipc_ready then (k, minus_one) else (
          wakeup (some self) (at_proc i) (put_proc k i (with_message msg n (k.procs i))),
          pos n,
        )
      ]

  unfoldable pub kipc_send : (self pid src : ℕ) (n : ℤ) → Kernel W → Kernel W × ℤ
  kipc_send self pid src (negsuc n) k = (k, minus_one)
  kipc_send self pid src (pos n) k =
      let n = min n max_msg in
      let (k, msg) = take_message self src n k in
      elim msg [ none ↦ (k, minus_one) | some msg ↦ deliver_message self pid msg n k ]

  abbrev pub emptied : Proc → Proc
  emptied p = record p { ipc_ready = false; ipc_len = 0 }

  -- if(m > 0 && copyout(…, p->ipc_msg, m) < 0)
  unfoldable pub store_message : (self dst m : ℕ) → Kernel W → W × Bool
  store_message self dst m k =
      let p = k.procs self in
      if m == 0 then (k.world, true) else sv.copyout k.world p.pagetable dst (take m p.ipc_msg)

  -- The delivery to the receiver's buffer of `n` bytes.
  unfoldable pub hand_over : (self dst n : ℕ) → Kernel W → Kernel W × Round
  hand_over self dst n k =
      let p = k.procs self in
      let m = min p.ipc_len n in
      let (w, stored) = store_message self dst m k in
      if stored
      then (record (put_proc k self (emptied p)) { world = w }, done (pos m))
      else (record k { world = w }, done minus_one)

  unfoldable pub kipc_recv : (self dst : ℕ) (n : ℤ) → Kernel W → Kernel W × Round
  kipc_recv self dst (negsuc n) k = (k, done minus_one)
  kipc_recv self dst (pos n) k =
      if (k.procs self).ipc_ready
      then hand_over self dst n k
      else if (k.procs self).killed
      then (k, done minus_one)
      else (sleep_on self (at_proc self) k, asleep)
