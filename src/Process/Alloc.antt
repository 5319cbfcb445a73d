-- ===== src/Process/Alloc.antt =====
-- proc.c: `allocpid`, `allocproc`, `freeproc`, `proc_pagetable`, `proc_freepagetable`, `procinit`.
use g14_os_project.Prelude.{
  ℕ, ◌+◌, ◌-◌, ◌*◌, ◌%◌, ◌^◌, false, not, Option, none, some, ◌==◌, if◌then◌else◌, set, replicate,
}
use g14_os_project.Prelude.Int.{pos}
use g14_os_project.Process.{
  Proc, Kernel, Services, no_chan, unused, used, is_unused, page_size, trampoline, trapframe_va,
}
use g14_os_project.Process.Table.{put_proc, find_proc}

abbrev pub kstack_of : ℕ → ℕ
kstack_of i = trampoline - (i + 1) * 2 * page_size

abbrev pub pte_r : ℕ
pte_r = 2

abbrev pub pte_w : ℕ
pte_w = 4

abbrev pub pte_x : ℕ
pte_x = 8

-- (uint64)-1
abbrev pub no_handler : ℕ
no_handler = 2 ^ 64 - 1

-- The table after `procinit`: zeroed memory, with each entry's stack.
unfoldable pub procinit : (zeroed : Proc) → ℕ → Proc
procinit zeroed i = record zeroed { state = unused; kstack = kstack_of i }

-- The entry as `freeproc` leaves it.
abbrev pub cleared : Proc → Proc
cleared p = record p {
  trapframe_page = 0;
  pagetable = 0;
  sz = 0;
  pid = 0;
  parent = none;
  name = set p.name 0 0;
  chan = no_chan;
  killed = false;
  xstate = 0;
  ipc_ready = false;
  ipc_len = 0;
  state = unused;
}

-- The entry between `found:` and the allocation of its pages.
abbrev pub claimed : ℕ → Proc → Proc
claimed pid p = record p {
  pid = pid;
  state = used;
  pending_signals = 0;
  handling_signal = false;
  ipc_ready = false;
  ipc_len = 0;
  signal_handlers = replicate 32 no_handler;
  ipc_msg = replicate 64 0;
  fork_count = pos 0;
}

-- The addresses of trampoline.S's page and of `forkret`, which the linker fixes.
module _ {W : Type 0} (sv : Services W) (trampoline_page forkret : ℕ) where
  open sv use {kalloc, kfree, uvmcreate, mappages, uvmunmap, uvmfree}

  unfoldable pub proc_pagetable : W → (trapframe_page : ℕ) → W × ℕ
  proc_pagetable w page =
      let (w, pagetable) = uvmcreate w in
      if pagetable == 0
      then (w, 0)
      else (let (w, mapped) =
            mappages w pagetable trampoline page_size trampoline_page (pte_r + pte_x) in
          if not mapped
          then (uvmfree w pagetable 0, 0)
          else (let (w, mapped) =
                mappages w pagetable trapframe_va page_size page (pte_r + pte_w) in
              if not mapped
              then (uvmfree (uvmunmap w pagetable trampoline 1 false) pagetable 0, 0)
              else (w, pagetable)))

  unfoldable pub proc_freepagetable : W → (pagetable sz : ℕ) → W
  proc_freepagetable w pagetable sz =
      uvmfree (uvmunmap (uvmunmap w pagetable trampoline 1 false) pagetable trapframe_va 1 false)
        pagetable sz

  -- What `freeproc` gives back.
  unfoldable pub free_pages : Proc → W → W
  free_pages p w =
      let w = if p.trapframe_page == 0 then w else kfree w p.trapframe_page in
      if p.pagetable == 0 then w else proc_freepagetable w p.pagetable p.sz

  unfoldable pub freeproc : ℕ → Kernel W → Kernel W
  freeproc i k =
      let p = k.procs i in record (put_proc k i (cleared p)) { world = free_pages p k.world }

  abbrev pub with_context : Proc → Proc
  with_context p = record p { context_ra = forkret; context_sp = p.kstack + page_size }

  -- `nextpid` is an `int`; its sum is kept as a 32-bit pattern.
  abbrev pub allocpid : Kernel W → Kernel W × ℕ
  allocpid k = (record k { nextpid = (k.nextpid + 1) % 2 ^ 32 }, k.nextpid)

  unfoldable pub allocate : ℕ → Kernel W → Kernel W × Option ℕ
  allocate i k =
      let (k, pid) = allocpid k in
      let p = claimed pid (k.procs i) in
      let (w, page) = kalloc k.world in
      let p = record p { trapframe_page = page } in
      if page == 0
      then (freeproc i (record (put_proc k i p) { world = w }), none)
      else (let (w, pagetable) = proc_pagetable w page in
          let p = record p { pagetable = pagetable } in
          if pagetable == 0
          then (freeproc i (record (put_proc k i p) { world = w }), none)
          else (record (put_proc k i (with_context p)) { world = w }, some i))

  unfoldable pub allocproc : Kernel W → Kernel W × Option ℕ
  allocproc k = elim (find_proc k (λ p. is_unused p.state)) [
    | none ↦ (k, none)
    | some i ↦ allocate i k
  ]
