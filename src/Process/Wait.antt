-- ===== src/Process/Wait.antt =====
-- proc.c: `kwait` and `kwaitpid`. Each function is one round of the C loop, under `wait_lock`; a
-- round that ends in `sleep` is followed by another one when the process runs again.
use g14_os_project.Prelude.{
  ℕ, zero, suc, ◌/◌, ◌%◌, Bool, true, false, ◌&&◌, ◌||◌, not, Option, none, some, List, [], ◌∷◌,
  ◌==◌, if◌then◌else◌,
}
use g14_os_project.Prelude.Int.{ℤ, pos, minus_one}
use g14_os_project.Process.{Kernel, Services, at_proc, is_zombie}
use g14_os_project.Process.Table.{find_proc, has_parent}
use g14_os_project.Process.Alloc.{freeproc}
use g14_os_project.Process.Sleep.{sleep_on}

-- The `n` lowest bytes of a word, the lowest first.
abbrev pub le_bytes : ℕ → ℕ → List ℕ
le_bytes zero x = []
le_bytes (suc n) x = (x % 256) ∷ le_bytes n (x / 256)

-- A round returns, or the process sleeps.
pub data Round : Type 0 where
  done : ℤ → Round
  asleep : Round

abbrev pub is_some : Option ℕ → Bool
is_some none = false
is_some (some i) = true

module _ {W : Type 0} (sv : Services W) (trampoline_page forkret : ℕ) where
  -- if(addr != 0 && copyout(…, &pp->xstate, …) < 0)
  unfoldable pub store_status : (self i addr : ℕ) → Kernel W → W × Bool
  store_status self i addr k =
      if addr == 0
      then (k.world, true)
      else sv.copyout k.world (k.procs self).pagetable addr (le_bytes 4 (k.procs i).xstate)

  -- A zombie child: its status goes to `addr`, then its entry is freed.
  unfoldable pub reap : ℕ → ℕ → ℕ → Kernel W → Kernel W × Round
  reap self i addr k =
      let pid = (k.procs i).pid in
      let (w, stored) = store_status self i addr k in
      let k = record k { world = w } in
      if stored
      then (freeproc sv trampoline_page forkret i k, done (pos pid))
      else (k, done minus_one)

  -- The end of a round that found no zombie.
  unfoldable pub wait_more : ℕ → Bool → Kernel W → Kernel W × Round
  wait_more self havekids k =
      if not havekids || (k.procs self).killed
      then (k, done minus_one)
      else (sleep_on self (at_proc self) k, asleep)

  -- The scan stops at the first zombie child; without one, it has seen whether there are children.
  unfoldable pub kwait : ℕ → ℕ → Kernel W → Kernel W × Round
  kwait self addr k = elim (find_proc k (λ p. has_parent self p && is_zombie p.state)) [
    | some i ↦ reap self i addr k
    | none ↦ wait_more self (is_some (find_proc k (has_parent self))) k
  ]

  -- The scan stops at the first child with the pid, a zombie or not.
  unfoldable pub kwaitpid : ℕ → ℕ → ℕ → Kernel W → Kernel W × Round
  kwaitpid self pid addr k = elim (find_proc k (λ p. has_parent self p && p.pid == pid)) [
    | some i ↦ if is_zombie (k.procs i).state then reap self i addr k else wait_more self true k
    | none ↦ wait_more self false k
  ]
