-- ===== src/Process/Inv/Boot.antt =====
-- `userinit` on the table of `procinit` sets the invariant up.
use native.Mathlib.Decide.{ℕ_discrete}
use g14_os_project.Prelude.{
  ℕ, ◌≡◌, refl, sym, ap, subst, ◌∙◌, ◌≢◌, true, false, none, some, Option, arith,
}
use g14_os_project.Prelude.Table.{update_self, update_ne}
use g14_os_project.Process.{Proc, Kernel, Services, is_unused, runnable}
use g14_os_project.Process.Table.{is_live, put_proc}
use g14_os_project.Process.Alloc.{allocproc}
use g14_os_project.Process.Fork.{userinit}
use g14_os_project.Process.Inv.{IsValid, TableValid}
use g14_os_project.Process.Inv.Forks.{Claimed, AllocOutcome, allocproc-AllocOutcome}

-- The kernel before `userinit`: nothing is in use.
pub record IsBlank {W : Type 0} (k : Kernel W) : Type 0 where
  pub entries :
      (i : ℕ)
      → (is_unused (k.procs i).state ≡ true) × ((k.procs i).pid ≡ 0) × ((k.procs i).parent ≡ none)
  pub nextpid : k.nextpid ≡ 1

module _ {W : Type 0} {k k' : Kernel W} {i : ℕ} (b : IsBlank k) (c : Claimed k k' i)
    (root : Option ℕ) where
  abbrev first : Proc
  first = record (k'.procs i) { cwd = root; state = runnable }

  abbrev booted : Kernel W
  booted = record (put_proc k' i first) { initproc = some i }

  elsewhere : (j : ℕ) → j ≢ i → booted.procs j ≡ k.procs j
  elsewhere j ne = update_ne k'.procs i j first ne ∙ c.others j ne

  at_first : booted.procs i ≡ first
  at_first = update_self k'.procs i first

  unused_elsewhere : (j : ℕ) → j ≢ i → is_unused (booted.procs j).state ≡ true
  unused_elsewhere j ne = rw (elsewhere j ne) (b.entries j).0

  used_is_first : (j : ℕ) → is_unused (booted.procs j).state ≡ false → j ≡ i
  used_is_first j e = elim (ℕ_discrete j i) [ yes ji ↦ ji | no ne ↦ cc (unused_elsewhere j ne) ]

  booted_free :
      (j : ℕ)
      → is_unused (booted.procs j).state ≡ true
      → ((booted.procs j).pid ≡ 0) × ((booted.procs j).parent ≡ none)
  booted_free j e = elim (ℕ_discrete j i) [
    | yes ji ↦ cc (
      ap (λ x. is_unused (booted.procs x).state) ji,
      ap (λ (p : Proc). is_unused p.state) at_first,
    )
    | no ne ↦ rw (elsewhere j ne) ((b.entries j).1, (b.entries j).2)
  ]

  first_pid : (booted.procs i).pid ≡ 1
  first_pid = ap (λ (p : Proc). p.pid) at_first ∙ c.pid ∙ b.nextpid

  booted_orphans : (j : ℕ) → (booted.procs j).parent ≡ none
  booted_orphans j = elim (ℕ_discrete j i) [
    | yes ji ↦ rw ji (ap (λ (p : Proc). p.parent) at_first ∙ c.parent ∙ (b.entries i).2)
    | no ne ↦ rw (elsewhere j ne) (b.entries j).2
  ]

  booted-TableValid : TableValid booted.procs booted.nextpid i
  booted-TableValid = record {
    init_in = c.within;
    init_live = ap is_live at_first;
    free = λ j lj e. booted_free j e;
    numbered = λ j lj e.
        let ji = used_is_first j e in rw ji (omega (arith, first_pid, c.nextpid, b.nextpid));
    unique = λ x y lx ly ex ey e. used_is_first x ex ∙ sym (used_is_first y ey);
    parents = λ j q lj e. cc (booted_orphans j);
  }

module _ {W : Type 0} (sv : Services W) (trampoline_page forkret : ℕ) where
  -- After `userinit` on a table in which no entry is in use, the invariant holds.
  pub userinit-IsValid :
      (k : Kernel W) {k' : Kernel W} (root : Option ℕ)
      → IsBlank k
      → userinit sv trampoline_page forkret root k ≡ some k'
      → IsValid k'
  unfolding userinit
  userinit-IsValid k {k'} root b e =
      go (allocproc sv trampoline_page forkret k)
        (allocproc-AllocOutcome sv trampoline_page forkret k (omega (arith, b.nextpid))) e
    where
      go :
          (o : Kernel W × Option ℕ)
          → AllocOutcome k o
          → (let r : Option (Kernel W) = elim o.1 [
            | none ↦ none
            | some i ↦
                some
                  (record (put_proc o.0 i (record (o.0.procs i) { cwd = root; state = runnable })) {
                    initproc = some i;
                  })
          ] in
              r)
            ≡ some k'
          → IsValid k'
      go (k₁, none) a f = cc f
      go (k₁, some i) c f =
          let same : booted b c root ≡ k' = cc in
          subst IsValid same
            (record { init = i; is_init = refl; table = booted-TableValid b c root })
