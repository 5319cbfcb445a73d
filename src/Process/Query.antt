-- ===== src/Process/Query.antt =====
-- proc.c: `kgetproccount`, `kgetprocinfo`, `kgetchildren`; sysproc.c: `sys_getprocinfo`,
-- `sys_getppid`, `sys_getpid`.
use g14_os_project.Prelude.{
  ℕ, zero, suc, ◌+◌, ◌-◌, ◌*◌, ◌%◌, ◌^◌, ◌&&◌, not, Option, none, some, List, [], ◌∷◌, ◌++◌, ◌==◌,
  if◌then◌else◌, length, take,
}
use g14_os_project.Prelude.Int.{ℤ, pos, negsuc, minus_one}
use g14_os_project.Prelude.Table.{count_below}
use g14_os_project.Cstring.{safestrcpy}
use g14_os_project.Process.{
  Proc, Kernel, Services, ProcState, unused, used, sleeping, runnable, running, zombie, is_unused,
  nproc,
}
use g14_os_project.Process.Table.{find_proc, live_child_of}
use g14_os_project.Process.Wait.{le_bytes}

-- `struct procinfo`
pub record ProcInfo : Type 0 where
  pub pid : ℕ
  pub state : ℕ
  pub sz : ℕ
  pub name : List ℕ

-- The value of an `enum procstate`.
abbrev pub state_number : ProcState → ℕ
state_number unused = 0
state_number used = 1
state_number sleeping = 2
state_number runnable = 3
state_number running = 4
state_number zombie = 5

abbrev pub words_bytes : List ℕ → List ℕ
words_bytes [] = []
words_bytes (x ∷ xs) = le_bytes 4 x ++ words_bytes xs

-- The pids of the living children among the `n` entries from `i` on, in the table's order.
unfoldable pub child_pids : ℕ → ℕ → ℕ → (ℕ → Proc) → List ℕ
child_pids self zero i procs = []
child_pids self (suc n) i procs =
    let rest = child_pids self n (suc i) procs in
    if live_child_of self (procs i) then (procs i).pid ∷ rest else rest

module _ {W : Type 0} where
  unfoldable pub kgetproccount : Kernel W → ℕ
  kgetproccount k = count_below (λ p. not (is_unused p.state)) k.procs nproc

  -- `junk` is what the name buffer of `info` holds before the call.
  unfoldable pub kgetprocinfo : (pid : ℕ) (junk : List ℕ) → Kernel W → Option ProcInfo
  kgetprocinfo pid junk k = elim (find_proc k (λ p. p.pid == pid && not (is_unused p.state))) [
    | none ↦ none
    | some i ↦
        let p = k.procs i in
        some (record {
          pid = p.pid;
          state = state_number p.state;
          sz = p.sz % 2 ^ 32;
          name = safestrcpy junk p.name 16;
        })
  ]

  -- sys_getppid
  unfoldable pub sys_getppid : ℕ → Kernel W → ℕ
  sys_getppid self k = elim (k.procs self).parent [ none ↦ 0 | some q ↦ (k.procs q).pid ]

  unfoldable pub sys_getpid : ℕ → Kernel W → ℕ
  sys_getpid self k = (k.procs self).pid

module _ {W : Type 0} (sv : Services W) where
  -- The copy of the bytes to `addr`, unless that is null.
  unfoldable pub copy_pids : (self addr : ℕ) → List ℕ → ℕ → Kernel W → Kernel W × ℤ
  copy_pids self addr bytes n k =
      if addr == 0
      then (k, pos n)
      else (let (w, stored) = sv.copyout k.world (k.procs self).pagetable addr bytes in
          (record k { world = w }, if stored then pos n else minus_one))

  -- `stack` gives the bytes that the kernel's memory holds from the array `pids` on. With `maxn`
  -- negative no pid is stored, `tocopy` is `maxn`, and `tocopy * sizeof(int)` is its product as a
  -- `uint64`, so that `copyout` is asked for bytes far beyond the array; a fault of the kernel while it
  -- reads them is not modelled.
  unfoldable pub kgetchildren :
      (stack : ℕ → List ℕ) → (self addr : ℕ) (maxn : ℤ) → Kernel W → Kernel W × ℤ
  unfolding child_pids copy_pids
  kgetchildren stack self addr (pos maxn) k =
      let pids = child_pids self nproc 0 k.procs in
      copy_pids self addr (words_bytes (take maxn pids)) (length pids) k
  kgetchildren stack self addr (negsuc m) k =
      let pids = child_pids self nproc 0 k.procs in
      copy_pids self addr (stack ((2 ^ 64 - (m + 1) % 2 ^ 62 * 4) % 2 ^ 64)) (length pids) k

  unfoldable pub sys_getprocinfo : (self pid addr : ℕ) (junk : List ℕ) → Kernel W → Kernel W × ℤ
  unfolding kgetprocinfo
  sys_getprocinfo self pid addr junk k = elim (kgetprocinfo pid junk k) [
    | none ↦ (k, minus_one)
    | some info ↦
        let bytes =
          le_bytes 4 info.pid ++ le_bytes 4 info.state ++ le_bytes 4 info.sz ++ info.name in
        let (w, stored) = sv.copyout k.world (k.procs self).pagetable addr bytes in
        (record k { world = w }, if stored then pos 0 else minus_one)
  ]
