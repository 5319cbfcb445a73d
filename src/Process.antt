-- ===== src/Process.antt =====
-- kernel/proc.h, kernel/proc.c: the process table `proc[NPROC]`, and what the rest of the kernel
-- does for it. An entry is named by its index. `W` is the state of the components that the table's
-- code calls (kalloc.c, vm.c, file.c, fs.c), `Services` their calls.
pub mod Table
pub mod Alloc
pub mod Fork
pub mod Sleep
pub mod Exit
pub mod Wait
pub mod Query
pub mod Ipc
pub mod Signal
pub mod Memory
pub mod Inv
pub mod Children
pub mod Lookup
pub mod Forking
pub mod Exiting
pub mod Reaping
pub mod Mailbox
pub mod Handlers
pub mod Heap
pub mod FreeSlots
mod Tests
use g14_os_project.Prelude.{
  ℕ, ◌+◌, ◌-◌, ◌*◌, ◌^◌, ◌≡◌, Bool, true, false, Option, none, some, List, ◌==◌,
}
use g14_os_project.Prelude.Int.{ℤ}

abbrev pub nproc : ℕ
nproc = 64

abbrev pub page_size : ℕ
page_size = 4096

abbrev pub max_va : ℕ
max_va = 2 ^ 38

abbrev pub trampoline : ℕ
trampoline = max_va - page_size

abbrev pub trapframe_va : ℕ
trapframe_va = trampoline - page_size

-- `enum procstate`
pub data ProcState : Type 0 where
  unused used sleeping runnable running zombie : ProcState

abbrev pub is_unused : ProcState → Bool
is_unused unused = true
is_unused _ = false

abbrev pub is_sleeping : ProcState → Bool
is_sleeping sleeping = true
is_sleeping _ = false

abbrev pub is_runnable : ProcState → Bool
is_runnable runnable = true
is_runnable _ = false

abbrev pub is_running : ProcState → Bool
is_running running = true
is_running _ = false

abbrev pub is_zombie : ProcState → Bool
is_zombie zombie = true
is_zombie _ = false

-- `void *chan`: null, the address of a table entry, or any other address.
pub data Chan : Type 0 where
  no_chan : Chan
  at_proc : ℕ → Chan
  at_addr : ℕ → Chan

abbrev pub chan_eq : Chan → Chan → Bool
chan_eq no_chan no_chan = true
chan_eq (at_proc i) (at_proc j) = i == j
chan_eq (at_addr a) (at_addr b) = a == b
chan_eq _ _ = false

-- `struct trapframe`; `others` are the registers that no kernel code names.
pub record Trapframe : Type 0 where
  pub kernel_satp : ℕ
  pub kernel_sp : ℕ
  pub kernel_trap : ℕ
  pub epc : ℕ
  pub kernel_hartid : ℕ
  pub a0 : ℕ
  pub a1 : ℕ
  pub a2 : ℕ
  pub a3 : ℕ
  pub a4 : ℕ
  pub a5 : ℕ
  pub a7 : ℕ
  pub others : List ℕ

-- `struct proc` without its lock; `trapframe_page` is the pointer `trapframe`, and `trapframe` what
-- it points at. `int` flags are Booleans, `pid` and `xstate` 32-bit patterns.
pub record Proc : Type 0 where
  pub state : ProcState
  pub chan : Chan
  pub killed : Bool
  pub xstate : ℕ
  pub pid : ℕ
  pub fork_count : ℤ
  pub parent : Option ℕ
  pub kstack : ℕ
  pub sz : ℕ
  pub pagetable : ℕ
  pub trapframe_page : ℕ
  pub trapframe : Trapframe
  pub context_ra : ℕ
  pub context_sp : ℕ
  pub ofile : List (Option ℕ)
  pub cwd : Option ℕ
  pub name : List ℕ
  pub pending_signals : ℕ
  pub signal_handlers : List ℕ
  pub saved_trapframe : Trapframe
  pub handling_signal : Bool
  pub ipc_ready : Bool
  pub ipc_len : ℕ
  pub ipc_msg : List ℕ

-- What the table's code calls. A null pointer is 0; a Boolean result says whether the call
-- succeeded. `fileclose` and `iput` (between `begin_op` and `end_op`) also say on which channels
-- they call `wakeup`.
pub record Services (W : Type 0) : Type 0 where
  pub kalloc : W → W × ℕ
  pub kfree : W → ℕ → W
  pub uvmcreate : W → W × ℕ
  pub mappages : W → (pagetable va size pa perm : ℕ) → W × Bool
  pub uvmunmap : W → (pagetable va npages : ℕ) (do_free : Bool) → W
  pub uvmfree : W → (pagetable sz : ℕ) → W
  pub uvmcopy : W → (old new sz : ℕ) → W × Bool
  pub uvmalloc : W → (pagetable oldsz newsz : ℕ) → W × ℕ
  pub uvmdealloc : W → (pagetable oldsz newsz : ℕ) → W × ℕ
  pub copyout : W → (pagetable dst : ℕ) → List ℕ → W × Bool
  pub copyin : W → (pagetable src len : ℕ) → W × Option (List ℕ)
  pub filedup : W → ℕ → W
  pub idup : W → ℕ → W
  pub fileclose : W → ℕ → W × List Chan
  pub iput : W → ℕ → W × List Chan

pub record Kernel (W : Type 0) : Type 0 where
  pub procs : ℕ → Proc
  pub nextpid : ℕ
  pub initproc : Option ℕ
  pub world : W
