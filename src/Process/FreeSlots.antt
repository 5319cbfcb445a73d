-- ===== src/Process/FreeSlots.antt =====
-- `kkill` does not look at an entry's state, and `allocproc` does not reset `killed`.
use g14_os_project.Prelude.{
  ℕ, ◌<◌, ◌≡◌, refl, ap, ◌∙◌, inl, inr, Bool, true, false, none, some, Option, arith, ◌==◌,
  Bool-cases, if◌then◌else◌,
}
use g14_os_project.Prelude.Int.{pos}
use g14_os_project.Prelude.Table.{update_self, update_ne}
use g14_os_project.Process.{Proc, Kernel, Services, nproc, is_unused, is_sleeping, runnable}
use g14_os_project.Process.Table.{find_proc, put_proc}
use g14_os_project.Process.Alloc.{allocproc, allocate, proc_pagetable}
use g14_os_project.Process.Sleep.{kkill}
use g14_os_project.Process.Inv.{IsValid}
use g14_os_project.Process.Lookup.{find_from-first}

abbrev marked : Proc → Proc
marked p = record p { killed = true; state = if is_sleeping p.state then runnable else p.state }

module _ {W : Type 0} where
  -- The entry handed out, if there is one, has the mark.
  abbrev HandsOut : Bool → Kernel W × Option ℕ → Type 0
  HandsOut b (k, none) = b ≡ b
  HandsOut b (k, some i) = (k.procs i).killed ≡ b

  handed_out :
      (b : Bool) (j : ℕ) (o : Kernel W × Option ℕ)
      → HandsOut b o
      → o.1 ≡ some j
      → (o.0.procs j).killed ≡ b
  handed_out b j (k, none) h e = cc
  handed_out b j (k, some i) h e = let same : i ≡ j = cc in rw (← same) h

  kkill_zero :
      (k : Kernel W) (i : ℕ)
      → IsValid k
      → i < nproc
      → is_unused (k.procs i).state ≡ true
      → ((j : ℕ) → j < i → is_unused (k.procs j).state ≡ false)
      → kkill 0 k ≡ (put_proc k i (marked (k.procs i)), pos 0)
  unfolding kkill
  kkill_zero k i v lt free early =
      let found : find_proc k (λ p. p.pid == 0) ≡ some i =
        find_from-first (λ p. p.pid == 0) k.procs nproc i lt
          (ground (arith, (v.table.free i lt free).0))
          (λ j h. ground (arith, (v.table.numbered j (omega arith) (early j h)).0)) in
      rw (found, kkill) refl

module _ {W : Type 0} (sv : Services W) (trampoline_page forkret : ℕ) where
  allocate-HandsOut :
      (i : ℕ) (k : Kernel W) → HandsOut (k.procs i).killed (allocate sv trampoline_page forkret i k)
  unfolding allocate
  allocate-HandsOut i k = elim (Bool-cases ((sv.kalloc k.world).1 == 0)) [
    | inl no_page ↦ rw no_page refl
    | inr page ↦
        rw page
          (elim (Bool-cases (
            (proc_pagetable sv trampoline_page forkret (sv.kalloc k.world).0
              (sv.kalloc k.world).1).1
            == 0)) [ inl no_table ↦ rw no_table refl | inr table ↦ rw table (ground arith) ])
  ]

  allocproc-HandsOut :
      (k : Kernel W) (i : ℕ)
      → i < nproc
      → is_unused (k.procs i).state ≡ true
      → ((j : ℕ) → j < i → is_unused (k.procs j).state ≡ false)
      → HandsOut (k.procs i).killed (allocproc sv trampoline_page forkret k)
  unfolding allocproc
  allocproc-HandsOut k i lt free early =
      let found : find_proc k (λ p. is_unused p.state) ≡ some i =
        find_from-first (λ (p : Proc). is_unused p.state) k.procs nproc i lt free early in
      rw (found, allocproc) (allocate-HandsOut i k)

  -- In a valid table whose first free entry is `i`, a kill of pid 0 is accepted, and the process that
  -- an `allocproc` right after it hands out is killed from the start.
  pub kkill-allocproc :
      (k : Kernel W) (i : ℕ)
      → IsValid k
      → i < nproc
      → is_unused (k.procs i).state ≡ true
      → ((j : ℕ) → j < i → is_unused (k.procs j).state ≡ false)
      → ((kkill 0 k).1 ≡ pos 0)
        × ((j : ℕ)
            → (allocproc sv trampoline_page forkret (kkill 0 k).0).1 ≡ some j
            → ((allocproc sv trampoline_page forkret (kkill 0 k).0).0.procs j).killed ≡ true)
  kkill-allocproc k i v lt free early =
      let after = put_proc k i (marked (k.procs i)) in
      let at_slot : after.procs i ≡ marked (k.procs i) =
        update_self k.procs i (marked (k.procs i)) in
      let out =
        allocproc-HandsOut after i lt (ap (λ (p : Proc). is_unused p.state) at_slot ∙ ground arith)
          (λ j h.
            (ap (λ (p : Proc). is_unused p.state)
              (update_ne k.procs i j (marked (k.procs i)) (λ e. absurd (omega arith))))
            ∙ early j h) in
      rw (kkill_zero k i v lt free early) (
        refl,
        (λ j e.
            handed_out (after.procs i).killed j (allocproc sv trampoline_page forkret after) out e
            ∙ ap (λ (p : Proc). p.killed) at_slot),
      )
