-- ===== src/Process/Mailbox.antt =====
-- A message from `kipc_send` to `kipc_recv`.
use g14_os_project.Prelude.{ℕ, ◌≡◌, none, some, Option, List}
use g14_os_project.Prelude.Int.{ℤ, minus_one}
use g14_os_project.Process.{Proc, Kernel, Services, at_proc}
use g14_os_project.Process.Table.{put_proc}
use g14_os_project.Process.Sleep.{wakeup}
use g14_os_project.Process.Ipc.{with_message, deliver_message}

-- What the sender reads of the user's memory.
pub record SameMail (p q : Proc) : Type 0 where
  pub ready : q.ipc_ready ≡ p.ipc_ready
  pub len : q.ipc_len ≡ p.ipc_len
  pub msg : q.ipc_msg ≡ p.ipc_msg
  pub pagetable : q.pagetable ≡ p.pagetable

module _ {W : Type 0} (sv : Services W) where
  -- The state after a message that is accepted.
  abbrev posted : (self i n : ℕ) → List ℕ → W → Kernel W → Kernel W
  posted self i n msg w k =
      wakeup (some self) (at_proc i)
        (put_proc (record k { world = w }) i (with_message sv msg n (k.procs i)))

  -- `kipc_send` behind the copy from user memory.
  abbrev sent_on : (self pid n : ℕ) → Kernel W × Option (List ℕ) → Kernel W × ℤ
  sent_on self pid n (k, msg) = elim msg [
    | none ↦ (k, minus_one)
    | some msg ↦ deliver_message sv self pid msg n k
  ]
