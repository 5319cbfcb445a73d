-- ===== src/Process/Sleep.antt =====
-- proc.c: `sleep`, `wakeup`, `yield`, the choice of `scheduler`, `kkill`, `setkilled`, `killed`.
-- `self` is the index of `myproc()`. A section ends where `sched` is called, and `resumed` is what
-- follows it.
use g14_os_project.Prelude.{
  ℕ, Bool, true, false, ◌&&◌, List, [], ◌∷◌, Option, none, some, ◌==◌, if◌then◌else◌,
}
use g14_os_project.Prelude.Int.{ℤ, pos, minus_one}
use g14_os_project.Process.{
  Proc, Kernel, Chan, no_chan, chan_eq, sleeping, runnable, running, is_sleeping, is_runnable,
}
use g14_os_project.Process.Table.{put_proc, find_proc}

-- One round of the loop of `wakeup`.
abbrev pub wake_one : Chan → Proc → Proc
wake_one chan p =
    if is_sleeping p.state && chan_eq p.chan chan then record p { state = runnable } else p

module _ {W : Type 0} where
  -- Each round touches its own entry only. `self` is `none` where no process runs.
  abbrev pub wakeup : Option ℕ → Chan → Kernel W → Kernel W
  wakeup self chan k = record k {
    procs = λ j.
        if elim self [ none ↦ false | some i ↦ i == j ]
        then k.procs j
        else wake_one chan (k.procs j);
  }

  abbrev pub wakeup_all : Option ℕ → List Chan → Kernel W → Kernel W
  wakeup_all self [] k = k
  wakeup_all self (c ∷ cs) k = wakeup_all self cs (wakeup self c k)

  unfoldable pub sleep_on : ℕ → Chan → Kernel W → Kernel W
  sleep_on self chan k = put_proc k self (record (k.procs self) { chan = chan; state = sleeping })

  unfoldable pub resumed : ℕ → Kernel W → Kernel W
  resumed self k = put_proc k self (record (k.procs self) { chan = no_chan })

  unfoldable pub yield_cpu : ℕ → Kernel W → Kernel W
  yield_cpu self k = put_proc k self (record (k.procs self) { state = runnable })

  -- One round of the scheduler's inner loop, up to `swtch`; the flag says whether it switches.
  unfoldable pub schedule : ℕ → Kernel W → Kernel W × Bool
  schedule i k =
      if is_runnable (k.procs i).state
      then (put_proc k i (record (k.procs i) { state = running }), true)
      else (k, false)

  unfoldable pub kkill : ℕ → Kernel W → Kernel W × ℤ
  kkill pid k = elim (find_proc k (λ p. p.pid == pid)) [
    | none ↦ (k, minus_one)
    | some i ↦
        let p = k.procs i in
        (
          put_proc k i (record p {
            killed = true;
            state = if is_sleeping p.state then runnable else p.state;
          }),
          pos 0,
        )
  ]

  unfoldable pub setkilled : ℕ → Kernel W → Kernel W
  setkilled i k = put_proc k i (record (k.procs i) { killed = true })

  unfoldable pub is_killed : ℕ → Kernel W → Bool
  is_killed i k = (k.procs i).killed
