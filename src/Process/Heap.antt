-- ===== src/Process/Heap.antt =====
-- The size of a process's memory under `sbrk`.
use g14_os_project.Prelude.{
  ℕ, zero, suc, ◌+◌, ◌-◌, ◌^◌, ◌≤◌, ◌<◌, ◌≡◌, refl, ap, ◌∙◌, ◌≢◌, ◌⊎◌, inl, inr, true, false, arith,
  ◌==◌, ltb, if◌then◌else◌, Bool-cases, add64,
}
use g14_os_project.Prelude.Int.{ℤ, pos, negsuc, minus_one}
use g14_os_project.Prelude.Table.{update_self, update_ne}
use g14_os_project.Process.{Kernel, Services, trapframe_va}
use g14_os_project.Process.Memory.{failure, sbrk_eager, with_size, growproc, sys_sbrk}

-- The sizes that `uvmalloc` and `uvmdealloc` of vm.c return.
pub record ResizesAsAsked {W : Type 0} (sv : Services W) : Type 0 where
  pub grows :
      (w : W) (pagetable old new : ℕ)
      → old ≤ new
      → ((sv.uvmalloc w pagetable old new).1 ≡ 0) ⊎ ((sv.uvmalloc w pagetable old new).1 ≡ new)
  pub shrinks :
      (w : W) (pagetable old new : ℕ)
      → (sv.uvmdealloc w pagetable old new).1 ≡ (if ltb new old then new else old)

-- The size after a successful call: a request below zero has no effect.
abbrev pub new_size : ℕ → ℤ → ℕ
new_size sz (pos n) = sz + n
new_size sz (negsuc n) = if ltb n sz then sz - suc n else sz

-- An `int`.
abbrev pub IsInt : ℤ → Type 0
IsInt (pos n) = n < 2 ^ 31
IsInt (negsuc n) = n < 2 ^ 31

module _ {W : Type 0} (self : ℕ) (n : ℤ) (k : Kernel W) where
  -- The call fails and changes nothing of the table, or returns the old size.
  abbrev pub SbrkOutcome : Kernel W × ℕ → Type 0
  SbrkOutcome (k', r) =
      ((r ≡ failure) × (k'.procs ≡ k.procs))
      ⊎ ((r ≡ (k.procs self).sz)
          × (k'.procs self ≡ record (k.procs self) { sz = new_size (k.procs self).sz n })
          × ((j : ℕ) → j ≢ self → k'.procs j ≡ k.procs j)
          × (new_size (k.procs self).sz n ≤ trapframe_va))

  abbrev pub GrowOutcome : Kernel W × ℤ → Type 0
  GrowOutcome (k', r) =
      ((r ≡ minus_one) × (k'.procs ≡ k.procs))
      ⊎ ((r ≡ pos 0)
          × (k'.procs self ≡ record (k.procs self) { sz = new_size (k.procs self).sz n })
          × ((j : ℕ) → j ≢ self → k'.procs j ≡ k.procs j)
          × (new_size (k.procs self).sz n ≤ trapframe_va))

  resized :
      (w : W) (sz : ℕ)
      → sz ≡ new_size (k.procs self).sz n
      → new_size (k.procs self).sz n ≤ trapframe_va
      → GrowOutcome (with_size self sz (record k { world = w }), pos 0)
  resized w sz e le = inr (
    refl,
    update_self k.procs self (record (k.procs self) { sz = sz })
        ∙ ap (λ s. record (k.procs self) { sz = s }) e,
    (λ j ne. update_ne k.procs self j (record (k.procs self) { sz = sz }) ne),
    le,
  )

  to_sbrk :
      (o : Kernel W × ℤ)
      → GrowOutcome o
      → SbrkOutcome (o.0, (elim o.1 [ negsuc e ↦ failure | pos z ↦ (k.procs self).sz ]))
  to_sbrk (k', pos z) (inl bad) = cc bad.0
  to_sbrk (k', pos z) (inr good) = inr (refl, good.1, good.2, good.3)
  to_sbrk (k', negsuc e) (inl bad) = inl (refl, bad.1)
  to_sbrk (k', negsuc e) (inr good) = cc good.0

module _ {W : Type 0} (sv : Services W) (l : ResizesAsAsked sv) (self : ℕ) (k : Kernel W)
    (fits : (k.procs self).sz ≤ trapframe_va) where
  growproc-GrowOutcome : (n : ℤ) → IsInt n → GrowOutcome self n k (growproc sv self n k)
  unfolding growproc
  growproc-GrowOutcome (pos zero) h =
      let same : (k.procs self).sz ≡ (k.procs self).sz + 0 = omega arith in
      inr (refl, ap (λ s. record (k.procs self) { sz = s }) same, (λ j ne. refl), omega arith)
  growproc-GrowOutcome (pos (suc n)) h =
      let p = k.procs self in
      let sum : add64 p.sz (suc n) ≡ p.sz + suc n = omega arith in
      elim (Bool-cases (ltb trapframe_va (add64 p.sz (suc n)))) [
        | inl far ↦ rw far (inl (refl, refl))
        | inr near ↦
            let le : p.sz + suc n ≤ trapframe_va = ground (arith, sum, near) in
            rw near
              (elim (Bool-cases
                ((sv.uvmalloc k.world p.pagetable p.sz (add64 p.sz (suc n))).1 == 0)) [
                  | inl failed ↦ rw failed (inl (refl, refl))
                  | inr grown ↦ rw grown (
                      resized self (pos (suc n)) k
                        (sv.uvmalloc k.world p.pagetable p.sz (add64 p.sz (suc n))).0 _
                        (elim (l.grows k.world p.pagetable p.sz (add64 p.sz (suc n))
                          (omega (arith, sum))) [
                            | inl zero_sz ↦ ground (arith, zero_sz)
                            | inr exact ↦ exact ∙ sum
                          ])
                        le)
                ])
      ]
  growproc-GrowOutcome (negsuc n) h =
      let p = k.procs self in
      resized self (negsuc n) k
        (sv.uvmdealloc k.world p.pagetable p.sz (add64 p.sz (2 ^ 64 - suc n))).0 _
        (l.shrinks k.world p.pagetable p.sz (add64 p.sz (2 ^ 64 - suc n)) ∙ shrunk p.sz n fits h)
        (smaller p.sz n fits)
    where
      shrunk :
          (sz n : ℕ)
          → sz ≤ trapframe_va
          → n < 2 ^ 31
          → (if ltb (add64 sz (2 ^ 64 - suc n)) sz then add64 sz (2 ^ 64 - suc n) else sz)
            ≡ new_size sz (negsuc n)
      shrunk sz n fits h = elim (Bool-cases (ltb n sz)) [
        | inl inside ↦
            let lt : n < sz = ground (arith, inside) in
            let val : add64 sz (2 ^ 64 - suc n) ≡ sz - suc n = omega arith in
            let less : ltb (sz - suc n) sz ≡ true = ground arith in rw (val, less, inside) refl
        | inr outside ↦
            let le : sz ≤ n = ground (arith, outside) in
            let val : add64 sz (2 ^ 64 - suc n) ≡ sz + (2 ^ 64 - suc n) = omega arith in
            let more : ltb (sz + (2 ^ 64 - suc n)) sz ≡ false = ground arith in
            rw (val, more, outside) refl
      ]

      smaller : (sz n : ℕ) → sz ≤ trapframe_va → new_size sz (negsuc n) ≤ trapframe_va
      smaller sz n fits = ground arith

  -- The part of `sys_sbrk` for a lazy request.
  abbrev lazy_sbrk : ℕ → Kernel W × ℕ
  lazy_sbrk n =
      let addr = (k.procs self).sz in
      if ltb (add64 addr n) addr
      then (k, failure)
      else if ltb trapframe_va (add64 addr n)
      then (k, failure)
      else (with_size self (add64 addr n) k, addr)

  lazy-SbrkOutcome : (n : ℕ) → n < 2 ^ 31 → SbrkOutcome self (pos n) k (lazy_sbrk n)
  lazy-SbrkOutcome n h =
      let addr = (k.procs self).sz in
      let sum : add64 addr n ≡ addr + n = omega arith in
      let up : ltb (addr + n) addr ≡ false = ground arith in
      elim (Bool-cases (ltb trapframe_va (addr + n))) [
        | inl far ↦ rw (sum, up, far) (inl (refl, refl))
        | inr near ↦
            rw (sum, up, near)
              (to_sbrk self (pos n) k (with_size self (addr + n) k, pos 0)
                (resized self (pos n) k k.world (addr + n) refl (ground (arith, near))))
      ]

  -- `sbrk` of any `int`, eager or lazy, for a process whose size lies below the trap frame, with a
  -- `uvmalloc` and a `uvmdealloc` that return the sizes vm.c says: it fails and leaves the table as
  -- it is, or returns the old size, gives the process the size asked for (the old one when that
  -- would be negative), below the trap frame again, and leaves all else of the table alone.
  pub sys_sbrk-SbrkOutcome :
      (n : ℤ) (t : ℕ) → IsInt n → SbrkOutcome self n k (sys_sbrk sv self n t k)
  unfolding sys_sbrk
  sys_sbrk-SbrkOutcome (negsuc n) t h =
      to_sbrk self (negsuc n) k (growproc sv self (negsuc n) k) (growproc-GrowOutcome (negsuc n) h)
  sys_sbrk-SbrkOutcome (pos n) t h = elim (Bool-cases (t == sbrk_eager)) [
    | inl eager ↦
        rw (eager, sys_sbrk)
          (to_sbrk self (pos n) k (growproc sv self (pos n) k) (growproc-GrowOutcome (pos n) h))
    | inr lazy ↦ rw (lazy, sys_sbrk) (lazy-SbrkOutcome n h)
  ]
