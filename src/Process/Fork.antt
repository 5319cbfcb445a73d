-- ===== src/Process/Fork.antt =====
-- proc.c: `kfork` and `thread_fork`, which differ in the child's registers only; `userinit`.
use g14_os_project.Prelude.{ℕ, not, Option, none, some, List, [], ◌∷◌, if◌then◌else◌}
use g14_os_project.Prelude.Int.{ℤ, pos, minus_one, ltb_ℤ, inc_ℤ}
use g14_os_project.Process.{Proc, Kernel, Services, Trapframe, runnable}
use g14_os_project.Cstring.{safestrcpy}
use g14_os_project.Process.Table.{put_proc}
use g14_os_project.Process.Alloc.{allocproc, freeproc}

-- The limit on `fork_count`.
abbrev pub max_children : ℕ
max_children = 10

-- if(p->ofile[i]) np->ofile[i] = filedup(p->ofile[i]); the other entries of `np` stay.
abbrev pub inherit : List (Option ℕ) → List (Option ℕ) → List (Option ℕ)
inherit [] own = own
inherit (some f ∷ fs) [] = []
inherit (none ∷ fs) [] = []
inherit (some f ∷ fs) (o ∷ own) = some f ∷ inherit fs own
inherit (none ∷ fs) (o ∷ own) = o ∷ inherit fs own

module _ {W : Type 0} (sv : Services W) (trampoline_page forkret : ℕ) where
  unfoldable pub dup_files : List (Option ℕ) → W → W
  dup_files [] w = w
  dup_files (none ∷ fs) w = dup_files fs w
  dup_files (some f ∷ fs) w = dup_files fs (sv.filedup w f)

  -- The child's entry, with its registers set by `regs`.
  abbrev pub child_of : ℕ → Proc → (Trapframe → Trapframe) → Proc → Proc
  child_of self p regs np = record np {
    sz = p.sz;
    trapframe = regs p.trapframe;
    ofile = inherit p.ofile np.ofile;
    cwd = p.cwd;
    name = safestrcpy np.name p.name 16;
    parent = some self;
    state = runnable;
  }

  abbrev pub dup_cwd : Option ℕ → W → W
  dup_cwd none w = w
  dup_cwd (some ip) w = sv.idup w ip

  -- The part of the two functions behind `allocproc`.
  unfoldable pub start_child : (Trapframe → Trapframe) → ℕ → ℕ → Kernel W → Kernel W × ℤ
  start_child regs self i k =
      let p = k.procs self in
      let np = k.procs i in
      let (w, copied) = sv.uvmcopy k.world p.pagetable np.pagetable p.sz in
      let k = record k { world = w } in
      if not copied
      then (freeproc sv trampoline_page forkret i k, minus_one)
      else (let k = record (put_proc k i (child_of self p regs np)) {
        world = dup_cwd p.cwd (dup_files p.ofile k.world);
      } in
          let p = k.procs self in
          (put_proc k self (record p { fork_count = inc_ℤ p.fork_count }), pos np.pid))

  unfoldable pub fork_with : (Trapframe → Trapframe) → ℕ → Kernel W → Kernel W × ℤ
  fork_with regs self k =
      if not (ltb_ℤ (k.procs self).fork_count (pos max_children))
      then (k, minus_one)
      else (let (k, np) = allocproc sv trampoline_page forkret k in
          elim np [ none ↦ (k, minus_one) | some i ↦ start_child regs self i k ])

  unfoldable pub kfork : ℕ → Kernel W → Kernel W × ℤ
  unfolding fork_with
  kfork = fork_with (λ t. record t { a0 = 0 })

  unfoldable pub thread_fork : (func arg : ℕ) → ℕ → Kernel W → Kernel W × ℤ
  unfolding fork_with
  thread_fork func arg = fork_with (λ t. record t { epc = func; a0 = arg })

  -- The first process; `root` is what `namei("/")` returns. A failed `allocproc` is a null pointer
  -- that the code writes through.
  unfoldable pub userinit : (root : Option ℕ) → Kernel W → Option (Kernel W)
  userinit root k =
      let (k, np) = allocproc sv trampoline_page forkret k in
      elim np [
        | none ↦ none
        | some i ↦
            some (record (put_proc k i (record (k.procs i) { cwd = root; state = runnable })) {
              initproc = some i;
            })
      ]
