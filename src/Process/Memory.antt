-- ===== src/Process/Memory.antt =====
-- proc.c: `growproc`; sysproc.c: `sys_sbrk`.
use g14_os_project.Prelude.{ℕ, zero, suc, ◌-◌, ◌^◌, ◌==◌, ltb, if◌then◌else◌, add64}
use g14_os_project.Prelude.Int.{ℤ, pos, negsuc, minus_one}
use g14_os_project.Process.{Kernel, Services, trapframe_va}
use g14_os_project.Process.Table.{put_proc}

-- (uint64)-1
abbrev pub failure : ℕ
failure = 2 ^ 64 - 1

abbrev pub sbrk_eager : ℕ
sbrk_eager = 1

module _ {W : Type 0} where
  abbrev pub with_size : ℕ → ℕ → Kernel W → Kernel W
  with_size self sz k = put_proc k self (record (k.procs self) { sz = sz })

module _ {W : Type 0} (sv : Services W) where
  -- sz + n is a `uint64` sum: a negative `n` is 2 ^ 64 - |n|.
  unfoldable pub growproc : ℕ → ℤ → Kernel W → Kernel W × ℤ
  growproc self (pos zero) k = (k, pos 0)
  growproc self (pos (suc n)) k =
      let p = k.procs self in
      let newsz = add64 p.sz (suc n) in
      if ltb trapframe_va newsz
      then (k, minus_one)
      else (let (w, sz) = sv.uvmalloc k.world p.pagetable p.sz newsz in
          let k = record k { world = w } in
          if sz == 0 then (k, minus_one) else (with_size self sz k, pos 0))
  growproc self (negsuc n) k =
      let p = k.procs self in
      let (w, sz) = sv.uvmdealloc k.world p.pagetable p.sz (add64 p.sz (2 ^ 64 - suc n)) in
      (with_size self sz (record k { world = w }), pos 0)

  abbrev pub eager_sbrk : ℕ → ℤ → Kernel W → Kernel W × ℕ
  eager_sbrk self n k =
      let (k', r) = growproc self n k in
      (k', elim r [ negsuc e ↦ failure | pos z ↦ (k.procs self).sz ])

  unfoldable pub sys_sbrk : ℕ → ℤ → ℕ → Kernel W → Kernel W × ℕ
  sys_sbrk self (negsuc n) t k = eager_sbrk self (negsuc n) k
  sys_sbrk self (pos n) t k =
      let addr = (k.procs self).sz in
      if t == sbrk_eager
      then eager_sbrk self (pos n) k
      else if ltb (add64 addr n) addr
      then (k, failure)
      else if ltb trapframe_va (add64 addr n)
      then (k, failure)
      else (with_size self (add64 addr n) k, addr)
