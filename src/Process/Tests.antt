-- ===== src/Process/Tests.antt =====
-- Runs of the process table, and the theorems at concrete tables.
use g14_os_project.Prelude.{
  ℕ, ◌+◌, ◌*◌, ◌<◌, ◌≤◌, ◌≡◌, refl, true, false, none, some, [], replicate, arith, ◌≢◌, inr, ltb,
  if◌then◌else◌,
}
use g14_os_project.Prelude.Int.{pos}
use g14_os_project.Prelude.Table.{find_from}
use g14_os_project.Process.{
  Proc, Kernel, Services, Trapframe, unused, no_chan, is_unused, trapframe_va,
}
use g14_os_project.Process.Table.{is_live}
use g14_os_project.Process.Alloc.{procinit, allocproc, allocate, proc_pagetable}
use g14_os_project.Process.Fork.{fork_with, start_child, userinit, dup_files}
use g14_os_project.Process.Sleep.{schedule}
use g14_os_project.Process.Exit.{kexit, exit_end, release_all, is_self, close_files, put_cwd}
use g14_os_project.Process.Inv.{IsValid}
use g14_os_project.Process.Inv.Frame.{Frame-IsValid}
use g14_os_project.Process.Inv.Others.{Frame-schedule}
use g14_os_project.Process.Inv.Boot.{IsBlank, userinit-IsValid}
use g14_os_project.Process.Inv.Steps.{
  Reach, here, next, forks, schedules, recounts, releases, exits, Runs, Reach-IsValid,
}
use g14_os_project.Prelude.Bits.{clear_bit, test_bit}
use g14_os_project.Process.Table.{put_proc}
use g14_os_project.Process.Sleep.{kkill}
use g14_os_project.Process.Wait.{kwait}
use g14_os_project.Process.Signal.{is_ready, handler_of, deliver, sys_sigreturn, store_result}
use g14_os_project.Process.Memory.{sys_sbrk}
use g14_os_project.Process.Exiting.{ExitOutcome, kexit-ExitOutcome}
use g14_os_project.Process.Reaping.{Waited, kwait-Waited}
use g14_os_project.Process.Handlers.{handler_roundtrip}
use g14_os_project.Process.Heap.{ResizesAsAsked, SbrkOutcome, sys_sbrk-SbrkOutcome}
use g14_os_project.Process.FreeSlots.{kkill-allocproc}

-- Memory that never runs out; the world counts the pages.
abbrev roomy : Services ℕ
roomy = record {
  kalloc = λ w. (w + 1, 4096 * (w + 1));
  kfree = λ w page. w;
  uvmcreate = λ w. (w + 1, 4096 * (w + 1));
  mappages = λ w pagetable va size pa perm. (w, true);
  uvmunmap = λ w pagetable va npages do_free. w;
  uvmfree = λ w pagetable sz. w;
  uvmcopy = λ w old new sz. (w, true);
  uvmalloc = λ w pagetable oldsz newsz. (w, newsz);
  uvmdealloc = λ w pagetable oldsz newsz. (w, if ltb newsz oldsz then newsz else oldsz);
  copyout = λ w pagetable dst bytes. (w, true);
  copyin = λ w pagetable src len. (w, some (replicate len 7));
  filedup = λ w f. w;
  idup = λ w ip. w;
  fileclose = λ w f. (w, []);
  iput = λ w ip. (w, []);
}

abbrev zero_regs : Trapframe
zero_regs = record {
  kernel_satp = 0;
  kernel_sp = 0;
  kernel_trap = 0;
  epc = 0;
  kernel_hartid = 0;
  a0 = 0;
  a1 = 0;
  a2 = 0;
  a3 = 0;
  a4 = 0;
  a5 = 0;
  a7 = 0;
  others = [];
}

abbrev zeroed : Proc
zeroed = record {
  state = unused;
  chan = no_chan;
  killed = false;
  xstate = 0;
  pid = 0;
  fork_count = pos 0;
  parent = none;
  kstack = 0;
  sz = 0;
  pagetable = 0;
  trapframe_page = 0;
  trapframe = zero_regs;
  context_ra = 0;
  context_sp = 0;
  ofile = replicate 16 none;
  cwd = none;
  name = replicate 16 0;
  pending_signals = 0;
  signal_handlers = replicate 32 0;
  saved_trapframe = zero_regs;
  handling_signal = false;
  ipc_ready = false;
  ipc_len = 0;
  ipc_msg = replicate 64 0;
}

abbrev blank : Kernel ℕ
blank = record { procs = procinit zeroed; nextpid = 1; initproc = none; world = 0 }

blank-IsBlank : IsBlank blank
unfolding procinit
blank-IsBlank = record { entries = λ i. (refl, refl, refl); nextpid = refl }

-- The state after `userinit`, with init's entry 0 chosen by the scheduler.
abbrev booted : Kernel ℕ
booted = elim (userinit roomy 1 2 (some 5) blank) [ none ↦ blank | some k ↦ k ]

abbrev ready : Kernel ℕ
ready = (schedule 0 booted).0

booted_lem : userinit roomy 1 2 (some 5) blank ≡ some booted
unfolding userinit allocproc allocate find_from procinit proc_pagetable
booted_lem = refl

booted-IsValid : IsValid booted
booted-IsValid = userinit-IsValid roomy 1 2 blank (some 5) blank-IsBlank booted_lem

ready-IsValid : IsValid ready
ready-IsValid = Frame-IsValid (Frame-schedule 0 booted) booted-IsValid

abbrev as_child : Trapframe → Trapframe
as_child t = record t { a0 = 0 }

-- init forks; the child, entry 1, is chosen and forks too.
abbrev forked : Kernel ℕ
forked = (fork_with roomy 1 2 as_child 0 ready).0

abbrev chosen : Kernel ℕ
chosen = (schedule 1 forked).0

abbrev family : Kernel ℕ
family = (fork_with roomy 1 2 as_child 1 chosen).0

init-Runs : Runs 0 ready
unfolding userinit allocproc allocate find_from procinit proc_pagetable schedule
init-Runs = record { within = omega arith; now = refl }

child-Runs : Runs 1 chosen
unfolding userinit allocproc allocate find_from procinit proc_pagetable schedule fork_with
    start_child dup_files
child-Runs = record { within = omega arith; now = refl }

ready_nextpid : ready.nextpid ≡ 2
unfolding userinit allocproc allocate find_from procinit proc_pagetable schedule
ready_nextpid = refl

chosen_nextpid : chosen.nextpid ≡ 3
unfolding userinit allocproc allocate find_from procinit proc_pagetable schedule fork_with
    start_child dup_files
chosen_nextpid = refl

to_chosen : Reach roomy 1 2 ready chosen
to_chosen =
    next (next here (forks 0 as_child init-Runs (omega (arith, ready_nextpid)) refl))
      (schedules 1 refl)

to_family : Reach roomy 1 2 ready family
to_family = next to_chosen (forks 1 as_child child-Runs (omega (arith, chosen_nextpid)) refl)

-- The child exits: init counts one child less, the files go back, and the process is a zombie.
abbrev recounted : Kernel ℕ
recounted = put_proc family 0 (record (family.procs 0) { fork_count = pos 0 })

abbrev released : Kernel ℕ
released = release_all roomy 1 recounted

recounted-Runs : Runs 1 recounted
unfolding userinit allocproc allocate find_from procinit proc_pagetable schedule fork_with
    start_child dup_files
recounted-Runs = record { within = omega arith; now = refl }

released-Runs : Runs 1 released
unfolding userinit allocproc allocate find_from procinit proc_pagetable schedule fork_with
    start_child dup_files release_all close_files put_cwd
released-Runs = record { within = omega arith; now = refl }

released-initproc : is_self released.initproc 1 ≡ false
unfolding userinit allocproc allocate find_from procinit proc_pagetable schedule fork_with
    start_child dup_files release_all close_files put_cwd
released-initproc = refl

to_exited : Reach roomy 1 2 ready (exit_end roomy 1 7 released)
to_exited =
    next (next (next to_family (recounts 0 (pos 0) refl)) (releases 1 recounted-Runs refl))
      (exits 1 7 released-Runs released-initproc refl)

Reach-IsValid_example : IsValid (exit_end roomy 1 7 released)
Reach-IsValid_example = Reach-IsValid roomy 1 2 ready-IsValid to_exited

child_live : is_live (family.procs 1) ≡ true
unfolding userinit allocproc allocate find_from procinit proc_pagetable schedule fork_with
    start_child dup_files
child_live = refl

child_not_init : family.initproc ≢ some 1
unfolding userinit allocproc allocate find_from procinit proc_pagetable schedule fork_with
    start_child dup_files
child_not_init e = cc e

family_init : family.initproc ≡ some 0
unfolding userinit allocproc allocate find_from procinit proc_pagetable schedule fork_with
    start_child dup_files
family_init = refl

kexit-ExitOutcome_example : ExitOutcome 1 7 0 family (kexit roomy 1 7 family)
kexit-ExitOutcome_example = kexit-ExitOutcome roomy 1 7 0 family family_init child_live

-- The grandchild has exited.
abbrev bereft : Kernel ℕ
bereft = elim (kexit roomy 2 7 family) [ none ↦ family | some k ↦ k ]

kwait-Waited_example : Waited roomy 1 4096 bereft (kwait roomy 1 2 1 4096 bereft)
kwait-Waited_example = kwait-Waited roomy 1 2 1 4096 bereft

roomy-ResizesAsAsked : ResizesAsAsked roomy
roomy-ResizesAsAsked = record {
  grows = λ w pagetable old new le. inr refl;
  shrinks = λ w pagetable old new. refl;
}

init_size : (ready.procs 0).sz ≤ trapframe_va
unfolding userinit allocproc allocate find_from procinit proc_pagetable schedule
init_size = omega arith

sys_sbrk-SbrkOutcome_example : SbrkOutcome 0 (pos 8192) ready (sys_sbrk roomy 0 (pos 8192) 1 ready)
sys_sbrk-SbrkOutcome_example =
    sys_sbrk-SbrkOutcome roomy roomy-ResizesAsAsked 0 ready init_size (pos 8192) 1 (omega arith)

-- Signals 1 and 2 are pending, with handlers.
abbrev signalled : Proc
signalled = record zeroed { pending_signals = 6; signal_handlers = replicate 32 4096 }

signal_0_idle : (j : ℕ) → j < 1 → is_ready signalled j ≡ false
unfolding test_bit
signal_0_idle j h = let first : j ≡ 0 = omega arith in rw first refl

signal_1_ready : is_ready signalled 1 ≡ true
unfolding test_bit
signal_1_ready = refl

handler_roundtrip_example :
    ((deliver signalled).trapframe.epc ≡ handler_of signalled 1)
    × (deliver (record (deliver signalled) { trapframe = zero_regs })
        ≡ record (deliver signalled) { trapframe = zero_regs })
    × (store_result (sys_sigreturn (record (deliver signalled) { trapframe = zero_regs }))
        ≡ record signalled {
          pending_signals = clear_bit signalled.pending_signals 1;
          saved_trapframe = signalled.trapframe;
        })
handler_roundtrip_example =
    handler_roundtrip signalled zero_regs 1 refl (omega arith) signal_1_ready signal_0_idle

init_used : is_unused (ready.procs 0).state ≡ false
unfolding userinit allocproc allocate find_from procinit proc_pagetable schedule
init_used = refl

slot_1_free : is_unused (ready.procs 1).state ≡ true
unfolding userinit allocproc allocate find_from procinit proc_pagetable schedule
slot_1_free = refl

slot_0_used : (j : ℕ) → j < 1 → is_unused (ready.procs j).state ≡ false
slot_0_used j h = let first : j ≡ 0 = omega arith in rw first init_used

kkill-allocproc_example :
    ((kkill 0 ready).1 ≡ pos 0)
    × ((j : ℕ)
        → (allocproc roomy 1 2 (kkill 0 ready).0).1 ≡ some j
        → ((allocproc roomy 1 2 (kkill 0 ready).0).0.procs j).killed ≡ true)
kkill-allocproc_example =
    kkill-allocproc roomy 1 2 ready 1 ready-IsValid (omega arith) slot_1_free slot_0_used
