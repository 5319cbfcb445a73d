-- ===== src/Process/Inv/Forks.antt =====
-- `allocproc`, `kfork` and `thread_fork` keep the invariant.
use native.Mathlib.Decide.{ℕ_discrete}
use g14_os_project.Prelude.{
  ℕ, ◌+◌, ◌%◌, ◌^◌, ◌≤◌, ◌<◌, ◌≡◌, refl, sym, ap, subst, ◌∙◌, ◌≢◌, ◌⊎◌, inl, inr, true, false, none,
  some, Option, arith, ◌==◌, Bool-cases, Option-cases,
}
use g14_os_project.Prelude.Int.{ℤ, pos, minus_one, inc_ℤ, ltb_ℤ}
use g14_os_project.Prelude.Table.{update, update_self, update_ne, find_from-IsFirst}
use g14_os_project.Process.{Proc, Kernel, Services, Trapframe, nproc, is_unused}
use g14_os_project.Process.Table.{is_live, put_proc, find_proc}
use g14_os_project.Process.Alloc.{freeproc, proc_pagetable, allocate, allocproc}
use g14_os_project.Process.Fork.{max_children, start_child, fork_with, child_of}
use g14_os_project.Process.Inv.{TableValid, IsValid}
use g14_os_project.Process.Inv.Frame.{SameLife, SameView-refl}
use g14_os_project.Process.Inv.Births.{Born, born-TableValid}
use g14_os_project.Process.Inv.Deaths.{Freed, freed-TableValid}

module _ {W : Type 0} where
  -- `k'` is `k` but for the world, a pid that may be spent, and the entry `i`, free at both ends.
  pub record Refused (k k' : Kernel W) : Type 0 where
    pub slot : ℕ
    pub freed : Freed k.procs k'.procs slot
    pub nextpid : k.nextpid ≤ k'.nextpid
    pub initproc : k'.initproc ≡ k.initproc

  pub Refused-IsValid : {k k' : Kernel W} → Refused k k' → IsValid k → IsValid k'
  Refused-IsValid r v = record {
    init = v.init;
    is_init = r.initproc ∙ v.is_init;
    table = freed-TableValid v.table r.freed r.nextpid;
  }

  -- From `k` to `k'` the free entry `i` is claimed.
  pub record Claimed (k k' : Kernel W) (i : ℕ) : Type 0 where
    pub within : i < nproc
    pub was_free : is_unused (k.procs i).state ≡ true
    pub others : (j : ℕ) → j ≢ i → k'.procs j ≡ k.procs j
    pub used : is_unused (k'.procs i).state ≡ false
    pub pid : (k'.procs i).pid ≡ k.nextpid
    pub fork_count : (k'.procs i).fork_count ≡ pos 0
    pub parent : (k'.procs i).parent ≡ (k.procs i).parent
    pub nextpid : k'.nextpid ≡ k.nextpid + 1
    pub initproc : k'.initproc ≡ k.initproc

  abbrev pub AllocOutcome : Kernel W → Kernel W × Option ℕ → Type 0
  AllocOutcome k (k', none) = (k' ≡ k) ⊎ Refused k k'
  AllocOutcome k (k', some i) = Claimed k k' i

module _ {W : Type 0} (sv : Services W) (trampoline_page forkret : ℕ) where
  pid_step : (k : Kernel W) → k.nextpid + 1 < 2 ^ 32 → (k.nextpid + 1) % 2 ^ 32 ≡ k.nextpid + 1
  pid_step k h = omega arith

  refused :
      (k : Kernel W) (i : ℕ) (p : Proc) (w : W) (n : ℕ)
      → k.nextpid ≤ n
      → is_unused (k.procs i).state ≡ true
      → Refused k (
          freeproc sv trampoline_page forkret i
            (record (put_proc k i p) { world = w; nextpid = n }))
  unfolding freeproc
  refused k i p w n h e = record {
    slot = i;
    freed = record {
      others =
          λ j ne. let miss : (i == j) ≡ false = ground arith in rw miss (SameView-refl (k.procs j));
      dead = ground arith;
      unused = ground arith;
      pid = ground arith;
      parent = ground arith;
    };
    nextpid = h;
    initproc = refl;
  }

  Claimed-entry :
      (k : Kernel W) (i n : ℕ) (p : Proc) (w : W)
      → n ≡ k.nextpid + 1
      → i < nproc
      → is_unused (k.procs i).state ≡ true
      → is_unused p.state ≡ false
      → p.pid ≡ k.nextpid
      → p.fork_count ≡ pos 0
      → p.parent ≡ (k.procs i).parent
      → Claimed k (record (put_proc k i p) { world = w; nextpid = n }) i
  Claimed-entry k i n p w h li e u pid count parent = record {
    within = li;
    was_free = e;
    others = λ j ne. update_ne k.procs i j p ne;
    used = rw (update_self k.procs i p) u;
    pid = rw (update_self k.procs i p) pid;
    fork_count = rw (update_self k.procs i p) count;
    parent = rw (update_self k.procs i p) parent;
    nextpid = h;
    initproc = refl;
  }

  allocate-AllocOutcome :
      (k : Kernel W) (i : ℕ)
      → k.nextpid + 1 < 2 ^ 32
      → i < nproc
      → is_unused (k.procs i).state ≡ true
      → AllocOutcome k (allocate sv trampoline_page forkret i k)
  unfolding allocate
  allocate-AllocOutcome k i h li e =
      let grown : k.nextpid ≤ (k.nextpid + 1) % 2 ^ 32 = omega (arith, pid_step k h) in
      elim (Bool-cases ((sv.kalloc k.world).1 == 0)) [
        | inl no_page ↦ rw no_page (inr (refused k i _ _ _ grown e))
        | inr page ↦
            let (w, page_at) = sv.kalloc k.world in
            rw page
              (elim (Bool-cases ((proc_pagetable sv trampoline_page forkret w page_at).1 == 0)) [
                | inl no_table ↦ rw no_table (inr (refused k i _ _ _ grown e))
                | inr table ↦
                    rw table (Claimed-entry k i _ _ _ (pid_step k h) li e refl refl refl refl)
              ])
      ]

  allocproc_full :
      (k : Kernel W)
      → find_proc k (λ p. is_unused p.state) ≡ none
      → allocproc sv trampoline_page forkret k ≡ (k, none)
  unfolding allocproc
  allocproc_full k e = rw (e, allocproc)

  allocproc_at :
      (k : Kernel W) (i : ℕ)
      → find_proc k (λ p. is_unused p.state) ≡ some i
      → allocproc sv trampoline_page forkret k ≡ allocate sv trampoline_page forkret i k
  unfolding allocproc
  allocproc_at k i e = rw (e, allocproc)

  pub allocproc-AllocOutcome :
      (k : Kernel W)
      → k.nextpid + 1 < 2 ^ 32
      → AllocOutcome k (allocproc sv trampoline_page forkret k)
  allocproc-AllocOutcome k h = elim (Option-cases (find_proc k (λ p. is_unused p.state))) [
    | inl full ↦ rw (allocproc_full k full) (inl refl)
    | inr (i, found) ↦
        let first = find_from-IsFirst (λ p. is_unused p.state) k.procs nproc 0 i found in
        rw (allocproc_at k i found) (allocate-AllocOutcome k i h first.below first.passes)
  ]

  module _ {k₀ k : Kernel W} {i self : ℕ} (c : Claimed k₀ k i) (v : IsValid k₀) (ls : self < nproc)
      (live : is_live (k₀.procs self) ≡ true) where
    pub apart : i ≢ self
    apart e = ground (arith, c.was_free, ap (λ j. is_unused (k₀.procs j).state) e)

    pub abandoned :
        (w : W) → Refused k₀ (freeproc sv trampoline_page forkret i (record k { world = w }))
    unfolding freeproc
    abandoned w = record {
      slot = i;
      freed = record {
        others = λ j ne.
            let miss : (i == j) ≡ false = ground arith in
            rw (miss, c.others j ne) (SameView-refl (k₀.procs j));
        dead = rw c.was_free (ground arith);
        unused = ground arith;
        pid = ground arith;
        parent = ground arith;
      };
      nextpid = omega (arith, c.nextpid);
      initproc = c.initproc;
    }

    abbrev pub child : (Trapframe → Trapframe) → Proc
    child regs = child_of sv trampoline_page forkret self (k.procs self) regs (k.procs i)

    abbrev pub counted : Proc → Proc
    counted p = record p { fork_count = inc_ℤ p.fork_count }

    -- The table after a successful fork.
    abbrev pub table_after : (Trapframe → Trapframe) → ℕ → Proc
    table_after regs = let g = update k.procs i (child regs) in update g self (counted (g self))

    module _ (regs : Trapframe → Trapframe) where
      pub at_child : table_after regs i ≡ child regs
      at_child =
          let g : ℕ → Proc = update k.procs i (child regs) in
          update_ne g self i (counted (g self)) apart ∙ update_self k.procs i (child regs)

      pub at_self : table_after regs self ≡ counted (k₀.procs self)
      at_self =
          let g : ℕ → Proc = update k.procs i (child regs) in
          let old : g self ≡ k₀.procs self =
            update_ne k.procs i self (child regs) (λ e. apart (sym e))
            ∙ c.others self (λ e. apart (sym e)) in
          update_self g self (counted (g self)) ∙ ap counted old

      pub elsewhere : (j : ℕ) → j ≢ i → j ≢ self → table_after regs j ≡ k₀.procs j
      elsewhere j ni ns =
          let g : ℕ → Proc = update k.procs i (child regs) in
          update_ne g self j (counted (g self)) ns
          ∙ update_ne k.procs i j (child regs) ni
          ∙ c.others j ni

      same_life : (j : ℕ) → j ≢ i → SameLife (k₀.procs j) (table_after regs j)
      same_life j ni = elim (ℕ_discrete j self) [
        | yes e ↦
            subst (λ (x : ℕ). SameLife (k₀.procs x) (table_after regs x)) (sym e)
              (subst (SameLife (k₀.procs self)) (sym at_self)
                (record { used = refl; live = refl; pid = refl; parent = refl }))
        | no ns ↦
            subst (SameLife (k₀.procs j)) (sym (elsewhere j ni ns))
              (record { used = refl; live = refl; pid = refl; parent = refl })
      ]

      table_after-Born : Born k₀.procs (table_after regs) self i k₀.nextpid
      table_after-Born = record {
        others = same_life;
        used = ap (λ (p : Proc). is_unused p.state) at_child;
        live = ap is_live at_child;
        pid = ap (λ (p : Proc). p.pid) at_child ∙ c.pid;
        parent = ap (λ (p : Proc). p.parent) at_child;
      }

      start_child-IsValid : IsValid (start_child sv trampoline_page forkret regs self i k).0
      unfolding start_child
      start_child-IsValid =
          elim (Bool-cases
            (sv.uvmcopy k.world (k.procs self).pagetable (k.procs i).pagetable
              (k.procs self).sz).1) [
                | inl copied ↦ rw copied (record {
                  init = v.init;
                  is_init = c.initproc ∙ v.is_init;
                  table =
                      subst (λ (n : ℕ). TableValid (table_after regs) n v.init) (sym c.nextpid)
                        (born-TableValid v.table table_after-Born c.was_free ls live);
                })
                | inr failed ↦ rw failed (Refused-IsValid (abandoned _) v)
              ]

  -- A fork, whatever `fork_count` is, keeps the invariant.
  pub fork_with-IsValid :
      {k : Kernel W} {self : ℕ} (regs : Trapframe → Trapframe)
      → IsValid k
      → k.nextpid + 1 < 2 ^ 32
      → self < nproc
      → is_live (k.procs self) ≡ true
      → IsValid (fork_with sv trampoline_page forkret regs self k).0
  unfolding fork_with
  fork_with-IsValid {k} {self} regs v h ls live =
      elim (Bool-cases (ltb_ℤ (k.procs self).fork_count (pos max_children))) [
        | inr many ↦ rw many v
        | inl few ↦
            rw few (go (allocproc sv trampoline_page forkret k) (allocproc-AllocOutcome k h))
      ]
    where
      go :
          (o : Kernel W × Option ℕ)
          → AllocOutcome k o
          → IsValid
              (let (k, np) = o in
                let r : Kernel W × ℤ = elim np [
                  | none ↦ (k, minus_one)
                  | some i ↦ start_child sv trampoline_page forkret regs self i k
                ] in
                r).0
      go (k', none) (inl same) = subst IsValid (sym same) v
      go (k', none) (inr r) = Refused-IsValid r v
      go (k', some i) c = start_child-IsValid c v ls live regs
